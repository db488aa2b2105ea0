-- ===== src/Lib.antt =====
-- A model of the sio library: rooms and events over WebSocket connections, for Go servers.
--
-- websocket/websocket.go implements RFC 6455 over a byte connection, and it is modelled from the
-- bytes up. A connection is a record with the bytes that the peer has sent and the reader has not
-- taken, the bytes flushed to the network, and the fields of Conn that the operations read or
-- change. Reading is a state monad on the bytes with Go's (value, error) as a Result.
--   Websocket/Types: the opcodes, flags and close codes, Error, Frame, Config, Conn, new_conn.
--   Websocket/Frame: readFrame (read_frame, in the steps of its body), writeFrame (write_frame,
--     which fills its buffer as the code does: frame_bytes), maskBytes, isValidOpcode.
--   Websocket/Message: ReadMessage (read_message), WriteMessage, WriteText, WriteBinary,
--     WritePing, WritePong, WriteClose, WriteFragmented.
--   Websocket/Lifecycle: close, setDefaultHandlers, handleConnection (handle_connection).
--     Handlers are functions on a World: the connection and the application's own state.
--   Websocket/Rooms: JoinRoom, LeaveRoom and BroadcastToRoom of Server.
--   Websocket/Handshake: validateHandshake, IsWebSocketUpgrade, the accept key, the negotiation
--     of the subprotocol and of permessage-deflate, the response, validateResponse.
--
-- The package at the root, sio, keeps sockets and rooms and carries named events over a websocket
-- package of another repository, which is a parameter: a socket's connection is a number, and a
-- message written to it is an output.
--   Event: the format of events on the wire: emitData of socket.go, and the search for the name
--     in Server.loop of server.go, with On and Off.
--   Hub: hub.go. The hub is one goroutine that answers requests from channels, one at a time: a
--     request is a value, listen's body is step, and a run is a list of requests. Go's maps are
--     association lists, and no statement depends on their order.
--   Socket: socket.go. A socket's calls change its own record and ask the hub; the hub's
--     channels are not buffered, so that a call and the hub's answer are one step.
--     What the handler of OnDisconnect does inside Close, with what the hub is asked meanwhile, is
--     a list of such calls, run where Close calls it.
--   Server: server.go. The life of a connection (loop), and Shutdown. What the other handlers do
--     to the rooms of their socket meanwhile is a list of calls, too.
--   Transmission: adapters/transmission.go, the messages between servers.
--   Pool: internal/bpool, the pool of buffers under emitData.
--   Database: chat/database.go, the in-memory store of the chat server.
--
-- The chat server, chat/server.go over chat/types.go and the interface Database, is a record with
-- its maps, and each handler a function from state to state. The Client objects that the maps
-- point to are kept by id in `objects`, so that an object outlives its removal from the map of
-- clients; a client's connection is a Conn of Websocket/Types, and writing to it is WriteText.
--   Chat/Types: the message types and payloads. Chat/Platform: the interface Database, with the
--     in-memory store as one, encoding/json, the configuration. Chat/State: the state,
--     sendMessage, broadcastToRoom, sendError.
--   Chat/Rooms: getOrCreateRoom, checkRoomPermission, joining and leaving. Chat/Limits:
--     checkRateLimit, validateMessage, CheckOrigin, random names.
--   Chat/Handlers, Chat/Shares, Chat/Relays: the handlers of messages, typing and receipts; of
--     files and recordings, by message and by upload; of calls, screens and recordings that are
--     passed on.
--   Chat/Service: handleMessage, and what a connection calls for a message. Chat/Sessions:
--     connections, disconnections, the default rooms. Chat/Typing: a tick of the typing ticker.
--     Chat/Direct: the methods behind the HTTP side. Chat/Http: the handlers of http.go for
--     rooms, messages, members, invitations and users. Chat/Upload: FileUploadHandler.
--   Chat/Reachable: the steps of the server, those of the HTTP side and changes of connections from
--     outside included, and the states that they reach; a connection arrives under an id that no
--     object has. Chat/Distinct and Chat/Sound: the invariant of its rooms, which Chat/Quiet,
--     Chat/Creation, Chat/Membership, Chat/Parting, Chat/Kept, Chat/Served, Chat/Going and
--     Chat/Requested take through the handlers. Chat/Admitted, Chat/Inviting and
--     Chat/Removing: who may join a group room, and does.
-- A handler runs to its end before the next: the mutexes are not modelled, and time.Now is read
-- once per handler. The calls of handleClientDisconnect that a failed write starts in a goroutine
-- wait in `leaving`. What is written to Redis is listed in `sessions`.
--
-- Base holds what the modules share: Boolean tests, lists over the native numbers, bit operations
-- on bytes, Go maps as association lists (Dict), sets of names (Names), Go strings as lists of
-- bytes (Text).
--
-- Bounds and fuel. An int64 is a number with a sign (ℤ), and to_int64 is the conversion from
-- uint64, which wraps. The loops of ReadMessage, handleConnection and WriteFragmented run on fuel:
-- the bytes on the stream (each round takes at least two) and the bytes of the data (a positive
-- fragment size takes one at least); `stuck` is the answer of a loop out of fuel.
--
-- Parameters: sync.Pool may drop a buffer (a Boolean), sort.Sort and the floating-point product of
-- calibrate are functions, and so is the growth of append; compress/flate and crypto/rand (Env),
-- SHA-1 with base64 (the digest of the handshake), the application's callbacks; for the chat
-- server encoding/json (Json: a payload is the text that it is decoded from), the store
-- (Database), the session that Redis has for a name, what a request's query, headers and body
-- hold, whether the disk takes an upload, the random bytes of names, and the texts of errors
-- (`reason`). A read finds the bytes that the peer has sent, and io.EOF behind them; a network
-- write fails exactly where the connection has been closed.
--
-- Not modelled: deadlines, timers and goroutines (startKeepAlive, Ping), the generic handlers of
-- Conn.On and Emit, HTTP parsing and printing, the upgrader and the options of the sio server, the
-- Redis adapter, the serving of files, PostgreSQL, Redis and the disk.

pub mod Base
pub mod Chat
pub mod Database
pub mod Event
pub mod Hub
pub mod Pool
pub mod Server
pub mod Socket
pub mod Transmission
pub mod Websocket
