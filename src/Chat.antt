-- ===== src/Chat.antt =====
-- chat/: the chat server over the websocket package and a store.
pub mod Types
pub mod Platform
pub mod State
pub mod Rooms
pub mod Limits
pub mod Handlers
pub mod Shares
pub mod Relays
pub mod Service
pub mod Sessions
pub mod Typing
pub mod Direct
pub mod Distinct
pub mod Sound
pub mod Quiet
pub mod Creation
pub mod Membership
pub mod Parting
pub mod Kept
pub mod Served
pub mod Going
pub mod Requested
pub mod Reachable
pub mod Delivery
pub mod Outside
pub mod Limiting
pub mod Dms
pub mod Sweeping
pub mod Entering
pub mod Restored
pub mod Upload
pub mod Http
pub mod Admitted
pub mod Inviting
pub mod Removing
pub mod Scene
mod Examples
