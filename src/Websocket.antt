-- ===== src/Websocket.antt =====
-- websocket/websocket.go: the WebSocket protocol (RFC 6455) over a byte connection.
pub mod Rooms
pub mod Types
pub mod Frame
pub mod Message
pub mod Lifecycle
pub mod Handshake
mod Tests
