-- ===== src/Server.antt =====
-- server.go: the life of a connection, the lists of sockets, and the end of the server. The
-- upgrader and the reading of messages are those of github.com/oarkflow/frame.
mod Looping
mod Quiet
mod Stopping
mod Examples
use sio.Base.{Bool, true, false, List, [], ◌∷◌, ◌++◌, map, Option, none, some, ℕ}
use sio.Base.Text.{Text, text_key}
use sio.Base.Dict.{lookup, insert}
use sio.Event.{dispatch_event}
use sio.Hub.{Handle, Sockets, Output}
use sio.Hub.Request.{shutdown}
use sio.Socket.{Socket, System, Fate, Call, calls, ask, new_socket, join, close, socket_room}

-- The handlers that a connection's messages start, each in a goroutine of its own. A round is a
-- message with the events that are registered when it is read.
abbrev pub with_call {ℓ} :
    {H : Type ℓ} → Option (H × List ℕ) → List (H × List ℕ) → List (H × List ℕ)
with_call none rest = rest
with_call (some c) rest = c ∷ rest

unfoldable pub started {ℓ} : {H : Type ℓ} → List (List (Text × H) × List ℕ) → List (H × List ℕ)
started [] = []
started ((events, msg) ∷ rounds) = with_call (dispatch_event events msg) (started rounds)

-- `loop`: the rounds are the messages up to the first error. `during` is what the handler of
-- OnConnect and those of the events do with the socket's rooms, with the requests of others that
-- the hub answers meanwhile.
unfoldable pub loop {ℓ} :
    {H : Type ℓ}
    → Handle
    → List Call
    → List (List (Text × H) × List ℕ)
    → Fate
    → System
    → List (H × List ℕ) × (Bool × (Socket × System))
loop h during rounds fate y =
    let (s, y') = new_socket h y in
    let (s', y'') = calls during (join (socket_room h.id) s y') in
    (started rounds, close fate s' y'')

unfoldable pub socket_list : System → Sockets
socket_list y = y.hub.sockets

abbrev pub or_no_room : Option Sockets → Sockets
or_no_room none = []
or_no_room (some room) = room

unfoldable pub room_socket_list : Text → System → Sockets
room_socket_list id y = or_no_room (lookup id y.hub.rooms)

-- The *Socket objects, by id.
abbrev pub Objects : Type 0
Objects = List (Text × Socket)

abbrev pub close_found : Fate → Text → Option Socket → Objects × System → Objects × System
close_found fate id none w = w
close_found fate id (some s) (os, y) =
    let (failed, (s', y')) = close fate s y in (insert id s' os, y')

-- The range of `Shutdown` over the list that the hub answers with; what `Close` returns is not
-- looked at.
unfoldable pub close_each : (Text → Fate) → List Handle → Objects × System → Objects × System
close_each fates [] w = w
close_each fates (h ∷ hs) w =
    close_each fates hs (close_found (fates h.id) h.id (lookup h.id w.0) w)

-- `Shutdown`; the Boolean is whether it calls the backend's.
unfoldable pub shut_down : (Text → Fate) → Objects → System → Bool × (Objects × System)
shut_down fates os y =
    (y.hub.multihome_enabled, close_each fates (map (λ e. e.1) y.hub.sockets) (os, ask shutdown y))
