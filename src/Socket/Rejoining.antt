-- ===== src/Socket/Rejoining.antt =====
-- What a run of a socket's own calls makes of its rooms.
use sio.Base.{
  ◌≡◌, refl, ap, ◌∙◌, Bool, true, false, ◌||◌, ◌&&◌, not, List, [], ◌∷◌, map, none, some,
  if◌then◌else◌, arith,
}
use sio.Base.Text.{Text, text_eq, text_key}
use sio.Base.Dict.{lookup, lookup-erase, lookup-insert}
use sio.Hub.{slices_contains}
use sio.Socket.{
  Socket, System, Call, present, join, leave, leave_all, in_room, get_rooms, leave_rooms, joins,
  leaves, leaves_all, others, call, calls,
}

-- What is left of the socket's rooms when it has left those of a list.
rooms-leave_rooms :
    (rooms : List Text) (s : Socket) (y : System) (room : Text)
    → lookup room (leave_rooms rooms s y).0.rooms
      ≡ (if slices_contains rooms room then none else lookup room s.rooms)
unfolding leave_rooms slices_contains leave text_eq
rooms-leave_rooms [] s y room = refl
rooms-leave_rooms (r ∷ rooms) s y room =
    rooms-leave_rooms rooms (leave r s y).0 (leave r s y).1 room
    ∙ ap (λ o. if slices_contains rooms room then none else o) (lookup-erase r room s.rooms)
    ∙ both (text_eq r room) (slices_contains rooms room)
  where
    both :
        (b c : Bool)
        → (if c then none else if b then none else lookup room s.rooms)
          ≡ (if b || c then none else lookup room s.rooms)
    both b c = ground arith

-- A room that is not among the keys is not in the map.
lookup-absent :
    (m : List (Text × Bool)) (room : Text)
    → (if slices_contains (map (λ e. e.0) m) room then none else lookup room m) ≡ none
unfolding slices_contains lookup text_eq
lookup-absent [] room = refl
lookup-absent ((r, b) ∷ m) room = ground (arith, lookup-absent m room)

pub in_room-leave_all :
    (s : Socket) (y : System) (room : Text) → in_room room (leave_rooms (get_rooms s) s y).0 ≡ false
unfolding in_room get_rooms
in_room-leave_all s y room =
    ap present (rooms-leave_rooms (get_rooms s) s y room ∙ lookup-absent s.rooms room)

-- Whether a run of a socket's own calls leaves it in a room, with `b` for whether it was before.
unfoldable pub rejoins : Text → Bool → List Call → Bool
rejoins room b [] = b
rejoins room b (joins name ∷ cs) = rejoins room (text_eq name room || b) cs
rejoins room b (leaves name ∷ cs) = rejoins room (not (text_eq name room) && b) cs
rejoins room b (leaves_all ∷ cs) = rejoins room false cs
rejoins room b (others r ∷ cs) = rejoins room b cs

in_room-call :
    (room : Text) (c : Call) (cs : List Call) (s : Socket) (y : System)
    → rejoins room (in_room room (call c (s, y)).0) cs ≡ rejoins room (in_room room s) (c ∷ cs)
unfolding rejoins in_room join leave leave_all text_eq
in_room-call room (joins name) cs s y =
    ap (λ o. rejoins room (present o) cs) (lookup-insert name room true s.rooms)
    ∙ ap (λ b. rejoins room b cs) (by_name (text_eq name room))
  where
    by_name :
        (b : Bool)
        → present (if b then some true else lookup room s.rooms)
          ≡ (b || present (lookup room s.rooms))
    by_name true = refl
    by_name false = refl
in_room-call room (leaves name) cs s y =
    ap (λ o. rejoins room (present o) cs) (lookup-erase name room s.rooms)
    ∙ ap (λ b. rejoins room b cs) (by_name (text_eq name room))
  where
    by_name :
        (b : Bool)
        → present (if b then none else lookup room s.rooms)
          ≡ (not b && present (lookup room s.rooms))
    by_name true = refl
    by_name false = refl
in_room-call room leaves_all cs s y = ap (λ b. rejoins room b cs) (in_room-leave_all s y room)
in_room-call room (others r) cs s y = refl

-- The socket's own record behind a run of calls.
pub in_room-calls :
    (room : Text) (cs : List Call) (s : Socket) (y : System)
    → in_room room (calls cs (s, y)).0 ≡ rejoins room (in_room room s) cs
unfolding rejoins
in_room-calls room [] s y = refl
in_room-calls room (c ∷ cs) s y =
    in_room-calls room cs (call c (s, y)).0 (call c (s, y)).1 ∙ in_room-call room c cs s y
