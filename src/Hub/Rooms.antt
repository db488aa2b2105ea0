-- ===== src/Hub/Rooms.antt =====
-- The invariant of the hub's maps.
use sio.Base.{
  some_inj, ◌≡◌, ◌≢◌, refl, ◌∙◌, sym, Bool, true, false, ◌==◌, ==_iff, List, [], ◌∷◌, Option, none,
  some, if◌then◌else◌, if-true, length, arith,
}
use mathlib.Core.Path.{subst}
use sio.Base.Text.{Text, text_eq, text_eq_iff, text_key}
use sio.Base.Dict.{lookup, insert, erase, lookup-insert}
use sio.Hub.{
  Handle, Sockets, Hub, Request, new_hub, make_room, add_to_room, put_in_room, take_from_room, step,
  listen,
}
use sio.Hub.Members.{sockets-take_from_room}
use sio.Hub.Request.{
  add_socket, remove_socket, join_room, leave_room, to_room, room_from_backend, broadcast,
  broadcast_from_backend, shutdown,
}
use sio.Hub.Keyed.{
  IsKeyed, insert-IsKeyed, erase-IsKeyed, insert-length, AllRooms, insert-AllRooms,
  insert_twice-AllRooms, erase-insert-AllRooms,
}

-- A room that the hub keeps: it has a socket, and its sockets stand under their own ids.
abbrev IsRoom : Sockets → Type 0
IsRoom m = IsKeyed m × (length m ≢ 0)

pub record IsSound (h : Hub) : Type 0 where
  pub keyed : IsKeyed h.sockets
  pub kept : AllRooms IsRoom h.rooms

inserted : (s : Handle) (m : Sockets) → IsKeyed m → IsRoom (insert s.id s m)
inserted s m k = (insert-IsKeyed s m k, insert-length s.id s m)

added :
    (name : Text) (s : Handle) (rooms : List (Text × Sockets)) (m : Sockets)
    → lookup name rooms ≡ some m
    → AllRooms IsRoom (insert name (insert s.id s m) rooms)
    → AllRooms IsRoom (add_to_room name s rooms)
unfolding add_to_room
added name s rooms m e h = by_found (lookup name rooms) e
  where
    by_found :
        (o : Option Sockets)
        → o ≡ some m
        → AllRooms IsRoom
            (elim o [ some room ↦ insert name (insert s.id s room) rooms | none ↦ rooms ])
    by_found none q = absurd cc
    by_found (some n) q =
        subst (λ r. AllRooms IsRoom (insert name (insert s.id s r) rooms)) (sym (some_inj q)) h

joined-AllRooms :
    (name : Text) (s : Handle) (rooms : List (Text × Sockets))
    → AllRooms IsRoom rooms
    → AllRooms IsRoom (add_to_room name s (make_room name rooms))
unfolding make_room text_eq
joined-AllRooms name s rooms all = by_found (lookup name rooms) refl
  where
    by_found :
        (o : Option Sockets)
        → lookup name rooms ≡ o
        → AllRooms IsRoom
            (add_to_room name s (elim o [ some m ↦ rooms | none ↦ insert name [] rooms ]))
    by_found (some m) e =
        added name s rooms m e
          (insert-AllRooms IsRoom name (insert s.id s m) rooms (inserted s m (all name m e).0) all)
    by_found none e =
        added name s (insert name [] rooms) []
          (lookup-insert name name [] rooms
            ∙ if-true (text_eq name name) (some []) (lookup name rooms)
                ((text_eq_iff name name).1 refl))
          (insert_twice-AllRooms IsRoom name (insert s.id s []) [] rooms (inserted s [] tt) all)

departed-AllRooms :
    (name : Text) (s : Handle) (h : Hub)
    → AllRooms IsRoom h.rooms
    → AllRooms IsRoom (take_from_room name s h).rooms
unfolding take_from_room
departed-AllRooms name s h all = by_found (lookup name h.rooms) refl
  where
    by_found :
        (o : Option Sockets)
        → lookup name h.rooms ≡ o
        → AllRooms IsRoom
            (elim o as (λ q. Hub) [
              | none ↦ h
              | some m ↦
                  let left = erase s.id m in
                  let rooms' = insert name left h.rooms in
                  record h { rooms = if length left == 0 then erase name rooms' else rooms' }
            ]).rooms
    by_found none e = all
    by_found (some m) e = by_size (length (erase s.id m) == 0) refl
      where
        by_size :
            (b : Bool)
            → (length (erase s.id m) == 0) ≡ b
            → AllRooms IsRoom (
                let rooms' = insert name (erase s.id m) h.rooms in
                if b then erase name rooms' else rooms')
        by_size true q = erase-insert-AllRooms IsRoom name (erase s.id m) h.rooms all
        by_size false q =
            insert-AllRooms IsRoom name (erase s.id m) h.rooms
              (
                erase-IsKeyed s.id m (all name m e).0,
                λ z. absurd (ground (arith, ==_iff (length (erase s.id m)) 0)),
              )
              all

step-IsSound : (h : Hub) (r : Request) → IsSound h → IsSound (step h r).0
unfolding step put_in_room
step-IsSound h (add_socket s) w = record {
  keyed = insert-IsKeyed s h.sockets w.keyed;
  kept = w.kept;
}
step-IsSound h (remove_socket s) w = record {
  keyed = erase-IsKeyed s.id h.sockets w.keyed;
  kept = w.kept;
}
step-IsSound h (join_room name s) w = record {
  keyed = w.keyed;
  kept = joined-AllRooms name s h.rooms w.kept;
}
step-IsSound h (leave_room name s) w = record {
  keyed = subst IsKeyed (sym (sockets-take_from_room name s h)) w.keyed;
  kept = departed-AllRooms name s h w.kept;
}
step-IsSound h (to_room c) w = w
step-IsSound h (room_from_backend c) w = w
step-IsSound h (broadcast c) w = w
step-IsSound h (broadcast_from_backend c) w = w
step-IsSound h shutdown w = w

from-IsSound : (rs : List Request) (h : Hub) → IsSound h → IsSound (listen h rs)
unfolding listen
from-IsSound [] h w = w
from-IsSound (r ∷ rs) h w = from-IsSound rs (step h r).0 (step-IsSound h r w)

-- After any sequence of requests no room is empty, and in every map each socket stands under its
-- own id and under no other.
pub listen-IsSound : (rs : List Request) → IsSound (listen new_hub rs)
unfolding new_hub lookup
listen-IsSound rs = from-IsSound rs new_hub (record { keyed = tt; kept = λ name m e. absurd cc })
