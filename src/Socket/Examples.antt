-- ===== src/Socket/Examples.antt =====
-- The theorems on sockets at one that has joined a room.
use sio.Base.{◌≡◌, true, false, List, [], ◌∷◌, refl}
use sio.Base.Text.{Text, codes, text_key}
use sio.Base.Dict.{lookup}
use sio.Hub.{Handle, new_hub, step}
use sio.Socket.{Socket, System, Fate, Call, joins, leaves, calls, new_socket, ask, in_room, close}
use sio.Socket.Agreement.{Agrees, calls-Agrees}
use sio.Socket.Closing.{close_leaks}

abbrev alice : Handle
alice = record { id = codes "a"; ws = 1 }

abbrev lobby : Text
lobby = codes "lobby"

abbrev before : Socket × System
before = new_socket alice (record { hub = new_hub; outputs = [] })

before-Agrees : Agrees before.0 before.1.hub
unfolding new_socket ask step new_hub in_room lookup
before-Agrees room = refl

abbrev story : List Call
story = joins lobby ∷ leaves lobby ∷ joins lobby ∷ []

abbrev joined : Socket × System
joined = calls story before

calls-Agrees_example : Agrees joined.0 joined.1.hub
unfolding new_socket
calls-Agrees_example = calls-Agrees story before.0 before.1 (tt, (tt, (tt, tt))) before-Agrees

-- A handler that joins a room, and then fails.
abbrev rough : Fate
rough = record { ws_fails = false; handler = joins lobby ∷ []; handler_fails = true }

close_leaks_example :
    ((close rough before.0 before.1).0 ≡ true)
    × ((close rough before.0 before.1).1.0.closed ≡ true)
    × ((close rough before.0 before.1).1.1.hub.sockets ≡ before.1.hub.sockets)
unfolding new_socket
close_leaks_example = close_leaks rough before.0 before.1 refl refl (tt, tt)
