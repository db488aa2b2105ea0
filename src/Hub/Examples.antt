-- ===== src/Hub/Examples.antt =====
-- The hub's theorems at a short story: two sockets, a room, and one of them leaving.
use sio.Base.{◌≡◌, All, List, [], ◌∷◌, none, some}
use sio.Base.Text.{Text, codes, text_eq, text_key}
use sio.Event.{str}
use sio.Hub.{Handle, Request, RoomMsg, BroadcastMsg, new_hub, listen, emit_room, emit_all}
use sio.Hub.Request.{add_socket, remove_socket, join_room, leave_room}
use sio.Hub.Places.{member}
use sio.Hub.Members.{settle, last_word, in_room, member-listen}
use sio.Hub.Rooms.{IsSound, listen-IsSound}
use sio.Hub.Delivery.{times, once, emit_room-once}

abbrev alice : Handle
alice = record { id = codes "a"; ws = 1 }

abbrev bob : Handle
bob = record { id = codes "b"; ws = 2 }

abbrev lobby : Text
lobby = codes "lobby"

abbrev story : List Request
story =
    add_socket alice
    ∷ add_socket bob
    ∷ join_room lobby alice
    ∷ join_room lobby bob
    ∷ leave_room lobby bob
    ∷ remove_socket alice
    ∷ []

abbrev hello : RoomMsg
hello = record { room_name = lobby; room_except = []; room_event = codes "hi"; room_data = str [] }

abbrev news : BroadcastMsg
news = record { event_name = codes "hi"; except = codes "a" ∷ []; event_data = str [] }

member-listen_example : member (listen new_hub story) lobby (codes "a") ≡ some alice
unfolding text_eq
member-listen_example = member-listen story lobby (codes "a")

listen-IsSound_example : IsSound (listen new_hub story)
listen-IsSound_example = listen-IsSound story

emit_room-once_example :
    (targets : List Handle) × (emit_room (listen new_hub story) hello
      ≡ emit_all (codes "hi") (str []) targets)
    × All (λ s. settle (last_word (in_room lobby s.id) story) none ≡ some s) targets
    × ((id : Text)
        → times id targets
          ≡ once hello.room_except id (settle (last_word (in_room lobby id) story) none))
emit_room-once_example = emit_room-once story hello
