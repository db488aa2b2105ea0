-- ===== src/Server/Examples.antt =====
-- The theorems on the server's life cycle at two connections.
use sio.Base.{ℕ, ◌≡◌, refl, Bool, true, false, if◌then◌else◌, List, [], ◌∷◌, ◌++◌, none, some}
use sio.Base.Text.{Text, codes, text_eq, text_key}
use sio.Base.Dict.{lookup}
use sio.Hub.{Handle, new_hub, step, put_in_room, make_room, add_to_room}
use sio.Hub.Request.{join_room}
use sio.Hub.Places.{member}
use sio.Socket.{Socket, System, Fate, joins, ask, join, in_room}
use sio.Socket.Agreement.{Agrees, join-Agrees, foreign-Agrees}
use sio.Socket.Rejoining.{rejoins}
use sio.Server.{loop, Objects, shut_down}
use sio.Server.Looping.{loop-gone}
use sio.Server.Quiet.{IsSmooth}
use sio.Server.Stopping.{AllGone, shut_down-AllGone}

abbrev h1 : Handle
h1 = record { id = codes "1"; ws = 1 }

abbrev h2 : Handle
h2 = record { id = codes "2"; ws = 2 }

abbrev empty : System
empty = record { hub = new_hub; outputs = [] }

abbrev fine : Fate
fine = record { ws_fails = false; handler = []; handler_fails = false }

abbrev red : Text
red = codes "red"

-- A handler of OnDisconnect that joins a room again.
abbrev rejoining : Fate
rejoining = record { ws_fails = false; handler = joins red ∷ []; handler_fails = false }

-- What the two sockets meet.
abbrev met : Text → Fate
met i = if text_eq i (codes "1") then rejoining else fine

abbrev rounds : List (List (Text × ℕ) × List ℕ)
rounds = ((codes "e", 5) ∷ [], codes "e" ++ 2 ∷ 7 ∷ []) ∷ []

loop-gone_example :
    let (failed, (s, y)) = (loop h1 (joins red ∷ []) rounds rejoining empty).1 in
    (failed ≡ false)
    × (lookup h1.id y.hub.sockets ≡ none)
    × ((room : Text)
        → member y.hub room h1.id ≡ (if rejoins room false (joins red ∷ []) then some h1 else none))
unfolding new_hub lookup
loop-gone_example =
    loop-gone h1 (joins red ∷ []) rounds rejoining empty (λ room. refl) (tt, tt) (tt, tt) refl refl

abbrev s1 : Socket
s1 = record { handle = h1; closed = false; rooms = []; ping_stopped = false }

abbrev s2 : Socket
s2 = record { handle = h2; closed = false; rooms = []; ping_stopped = false }

abbrev two : System
two = record {
  hub = record { sockets = (h1.id, h1) ∷ (h2.id, h2) ∷ []; rooms = []; multihome_enabled = true };
  outputs = [];
}

-- The first of the two sockets in a room.
abbrev joined : Socket × System
joined = join red s1 two

first-Agrees : Agrees joined.0 joined.1.hub
unfolding lookup in_room
first-Agrees = join-Agrees red s1 two (λ room. refl)

second-Agrees : Agrees s2 joined.1.hub
unfolding lookup in_room join text_eq
second-Agrees = foreign-Agrees (join_room red h1) s2 two refl (λ room. refl)

abbrev objects : Objects
objects = (h1.id, joined.0) ∷ (h2.id, s2) ∷ []

met-IsSmooth : (i : Text) → IsSmooth (met i)
met-IsSmooth i = by_id (text_eq i (codes "1"))
  where
    by_id : (b : Bool) → IsSmooth (if b then rejoining else fine)
    by_id true = (refl, refl, (tt, tt))
    by_id false = (refl, refl, tt)

shut_down-AllGone_example :
    let (backend, (os, y)) = shut_down met objects joined.1 in
    (backend ≡ true) × AllGone met (h1 ∷ h2 ∷ []) y.hub
unfolding lookup text_eq join ask step put_in_room make_room add_to_room
shut_down-AllGone_example = shut_down-AllGone met objects joined.1 met-IsSmooth (
  record { socket = joined.0; found = refl; own = refl; not_closed = refl; agrees = first-Agrees },
  (refl, tt),
  (
    record { socket = s2; found = refl; own = refl; not_closed = refl; agrees = second-Agrees },
    tt,
    tt,
  ),
)
