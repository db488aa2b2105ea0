-- ===== src/Socket.antt =====
-- socket.go, with the parts of server.go that work on sockets: each socket's own record of its
-- rooms beside the hub. The channels of the hub are not buffered, so a call that sends on one is
-- answered by the hub before the caller goes on; `ask` is such a call.
pub mod Agreement
pub mod Closing
pub mod Rejoining
mod Examples
use sio.Base.{ℕ, Bool, true, false, if◌then◌else◌, List, [], ◌∷◌, ◌++◌, map, Option, none, some}
use sio.Base.Text.{Text, codes, text_key}
use sio.Base.Dict.{lookup, insert, erase}
use sio.Event.{Data}
use sio.Hub.{Handle, Hub, Request, Output, step}
use sio.Hub.Request.{add_socket, remove_socket, join_room, leave_room, to_room, broadcast}

-- The fields of a socket that change. The rooms are the keys of `s.rooms`, whose values are true.
pub record Socket : Type 0 where
  pub handle : Handle
  pub closed : Bool
  pub rooms : List (Text × Bool)
  pub ping_stopped : Bool

-- The hub, and what has gone out through it.
pub record System : Type 0 where
  pub hub : Hub
  pub outputs : List Output

unfoldable pub ask : Request → System → System
ask r y = let (h, out) = step y.hub r in record { hub = h; outputs = y.outputs ++ out }

-- `newSocket`, with the id that xid draws and the connection.
unfoldable pub new_socket : Handle → System → Socket × System
new_socket h y =
    (record { handle = h; closed = false; rooms = []; ping_stopped = false }, ask (add_socket h) y)

unfoldable pub join : Text → Socket → System → Socket × System
join room s y = (record s { rooms = insert room true s.rooms }, ask (join_room room s.handle) y)

unfoldable pub leave : Text → Socket → System → Socket × System
leave room s y = (record s { rooms = erase room s.rooms }, ask (leave_room room s.handle) y)

abbrev pub present : Option Bool → Bool
present (some b) = b
present none = false

unfoldable pub in_room : Text → Socket → Bool
in_room room s = present (lookup room s.rooms)

unfoldable pub get_rooms : Socket → List Text
get_rooms s = map (λ e. e.0) s.rooms

-- A range over room names that leaves each.
unfoldable pub leave_rooms : List Text → Socket → System → Socket × System
leave_rooms [] s y = (s, y)
leave_rooms (room ∷ rooms) s y = leave_rooms rooms (leave room s y).0 (leave room s y).1

-- `LeaveAll` ranges over the map itself; deleting the key that was reached does not disturb it.
unfoldable pub leave_all : Socket → System → Socket × System
leave_all s y = leave_rooms (get_rooms s) s y

abbrev pub socket_room : Text → Text
socket_room id = codes "__socket_id:" ++ id

unfoldable send_to_room : Text → List Text → Text → Data → System → System
send_to_room room except event d y =
    ask
      (to_room
        (record { room_name = room; room_except = except; room_event = event; room_data = d }))
      y

unfoldable send_broadcast : List Text → Text → Data → System → System
send_broadcast except event d y =
    ask (broadcast (record { event_name = event; except = except; event_data = d })) y

unfoldable to_socket : Text → Text → Data → System → System
to_socket id event d y = send_to_room (socket_room id) [] event d y

-- What can happen to a socket's rooms: its own calls, and requests about others in between.
pub data Call : Type 0 where
  joins leaves : Text → Call
  leaves_all : Call
  others : Request → Call

abbrev pub call : Call → Socket × System → Socket × System
call (joins room) (s, y) = join room s y
call (leaves room) (s, y) = leave room s y
call leaves_all (s, y) = leave_all s y
call (others r) (s, y) = (s, ask r y)

abbrev pub calls : List Call → Socket × System → Socket × System
calls [] w = w
calls (c ∷ cs) w = calls cs (call c w)

-- What a closing socket meets outside: the error of `ws.Close`, if any; what is called on the
-- socket while the handler set by `OnDisconnect` runs, with the other requests that the hub answers
-- meanwhile (none where there is no handler); and whether the handler fails in the end. A handler's
-- own call of `Close` returns at once, since the socket counts as closed.
pub record Fate : Type 0 where
  pub ws_fails : Bool
  pub handler : List Call
  pub handler_fails : Bool

abbrev pub finish : Socket × System → Socket × System
finish (s, y) = (record s { ping_stopped = true }, ask (remove_socket s.handle) y)

-- `Close`; the Boolean is whether it returns an error.
unfoldable pub close : Fate → Socket → System → Bool × (Socket × System)
close fate s y =
    let s' = record s { closed = true } in
    let handled = calls fate.handler (leave_rooms (get_rooms s') s' y) in
    if s.closed
    then (false, (s, y))
    else if fate.ws_fails
    then (true, (s', y))
    else if fate.handler_fails
    then (true, handled)
    else (false, finish handled)
