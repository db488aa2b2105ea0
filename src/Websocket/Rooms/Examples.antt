-- ===== src/Websocket/Rooms/Examples.antt =====
-- The rooms of the websocket server with two connections.
use sio.Base.{◌≡◌, pos, true, false, List, [], ◌∷◌}
use sio.Base.Text.{Text, codes, text_eq, text_key}
use sio.Base.Dict.{lookup}
use sio.Websocket.Types.{Conn, Env, new_conn}
use sio.Websocket.Rooms.{broadcast_room}
use sio.Websocket.Rooms.Members.{Change, enters, quits, changes}
use sio.Websocket.Rooms.Broadcast.{sent_to, broadcast_room-changes}

abbrev env : Env
env = record { random = λ n. record { k0 = 1; k1 = 2; k2 = 3; k3 = 4 }; deflate = λ d. d }

abbrev conn : Conn
unfolding new_conn
conn =
    new_conn
      (record { max_message_size = pos 1000; max_frame_size = pos 100; enable_ping_pong = true })
      false true []

abbrev conns : List (Text × Conn)
conns = (codes "a", conn) ∷ (codes "b", conn) ∷ []

abbrev red : Text
red = codes "red"

-- Both join, and one leaves.
abbrev story : List Change
story = enters red (codes "a") ∷ enters red (codes "b") ∷ quits red (codes "a") ∷ []

broadcast_room-changes_example :
    lookup (codes "b") (broadcast_room env red 1 (codes "hi") (changes story []) conns)
    ≡ sent_to env 1 (codes "hi") (lookup (codes "b") conns)
unfolding text_eq
broadcast_room-changes_example =
    broadcast_room-changes env story red 1 (codes "hi") conns (codes "b")
