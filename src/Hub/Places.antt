-- ===== src/Hub/Places.antt =====
-- Reading a place, an id in a room, behind the writes to the map of rooms.
use sio.Base.{
  ◌≡◌, refl, ap, ◌∙◌, sym, Bool, true, false, ◌&&◌, ◌==◌, List, [], ◌∷◌, Option, none, some,
  if◌then◌else◌, if-true, length, arith,
}
use sio.Base.Text.{Text, text_eq, text_eq_iff, text_key}
use sio.Base.Dict.{lookup, insert, erase, lookup-insert, lookup-erase}
use sio.Hub.{Handle, Sockets, Hub, make_room, add_to_room, put_in_room, take_from_room}

-- What a room that may not exist has under an id.
abbrev pub found : Option Sockets → Text → Option Handle
found none id = none
found (some m) id = lookup id m

abbrev member_at : Text → Text → List (Text × Sockets) → Option Handle
member_at room id rooms = found (lookup room rooms) id

-- The socket that the hub has under an id in a room.
abbrev pub member : Hub → Text → Text → Option Handle
member h room id = member_at room id h.rooms

-- Reading after a write to the map of rooms.
found-insert :
    (name room id : Text) (m : Sockets) (rooms : List (Text × Sockets))
    → member_at room id (insert name m rooms)
      ≡ (if text_eq name room then lookup id m else member_at room id rooms)
unfolding text_eq
found-insert name room id m rooms =
    ap (λ o. found o id) (lookup-insert name room m rooms) ∙ by_name (text_eq name room)
  where
    by_name :
        (b : Bool)
        → found (if b then some m else lookup room rooms) id
          ≡ (if b then lookup id m else member_at room id rooms)
    by_name true = refl
    by_name false = refl

found-erase :
    (name room id : Text) (rooms : List (Text × Sockets))
    → member_at room id (erase name rooms)
      ≡ (if text_eq name room then none else member_at room id rooms)
unfolding text_eq
found-erase name room id rooms =
    ap (λ o. found o id) (lookup-erase name room rooms) ∙ by_name (text_eq name room)
  where
    by_name :
        (b : Bool)
        → found (if b then none else lookup room rooms) id
          ≡ (if b then none else member_at room id rooms)
    by_name true = refl
    by_name false = refl

-- Under the name of a room that was looked up.
by_room :
    (name room id : Text) (rooms : List (Text × Sockets)) (o : Option Sockets)
    → lookup name rooms ≡ o
    → text_eq name room ≡ true
    → member_at room id rooms ≡ found o id
by_room name room id rooms o e same =
    ap (λ r. found (lookup r rooms) id) (sym ((text_eq_iff name room).0 same))
    ∙ ap (λ q. found q id) e

nothing-lookup : (m : Sockets) (id : Text) → (length m == 0) ≡ true → lookup id m ≡ none
unfolding lookup
nothing-lookup [] id e = refl
nothing-lookup (p ∷ m) id e = absurd (ground arith)

member_at-make_room :
    (name room id : Text) (rooms : List (Text × Sockets))
    → member_at room id (make_room name rooms) ≡ member_at room id rooms
unfolding make_room
member_at-make_room name room id rooms = by_found (lookup name rooms) refl
  where
    by_found :
        (o : Option Sockets)
        → lookup name rooms ≡ o
        → member_at room id (elim o [ some m ↦ rooms | none ↦ insert name [] rooms ])
          ≡ member_at room id rooms
    by_found (some m) e = refl
    by_found none e = ground (
      arith,
      found-insert name room id [] rooms,
      by_room name room id rooms none e,
      nothing-lookup [] id,
    )

lookup-make_room :
    (name : Text) (rooms : List (Text × Sockets))
    → (m : Sockets) × (lookup name (make_room name rooms) ≡ some m)
unfolding make_room text_eq
lookup-make_room name rooms = by_found (lookup name rooms) refl
  where
    by_found :
        (o : Option Sockets)
        → lookup name rooms ≡ o
        → (m : Sockets) × (lookup name (elim o [ some m ↦ rooms | none ↦ insert name [] rooms ])
            ≡ some m)
    by_found (some m) e = (m, e)
    by_found none e = (
      [],
      lookup-insert name name [] rooms
          ∙ if-true (text_eq name name) (some []) (lookup name rooms)
              ((text_eq_iff name name).1 refl),
    )

-- The room's and the socket's names both.
abbrev pub same_place : Text → Text → Text → Text → Bool
same_place name room i id = text_eq name room && text_eq i id

pub member-put_in_room :
    (name : Text) (s : Handle) (h : Hub) (room id : Text)
    → member (put_in_room name s h) room id
      ≡ (if same_place name room s.id id then some s else member h room id)
unfolding put_in_room add_to_room text_eq
member-put_in_room name s h room id =
    let rooms' = make_room name h.rooms in
    let (m, e) = lookup-make_room name h.rooms in
    by_found (lookup name rooms') m refl e
    ∙ ap (λ v. if same_place name room s.id id then some s else v)
        (member_at-make_room name room id h.rooms)
  where
    by_found :
        (o : Option Sockets) (m : Sockets)
        → lookup name (make_room name h.rooms) ≡ o
        → o ≡ some m
        → member_at room id (elim o [
          | some m ↦ insert name (insert s.id s m) (make_room name h.rooms)
          | none ↦ make_room name h.rooms
        ])
          ≡ (if same_place name room s.id id
              then some s
              else member_at room id (make_room name h.rooms))
    by_found none m e q = cc
    by_found (some n) m e q = ground (
      arith,
      found-insert name room id (insert s.id s n) (make_room name h.rooms),
      by_room name room id (make_room name h.rooms) (some n) e,
      lookup-insert s.id id s n,
    )

pub member-take_from_room :
    (name : Text) (s : Handle) (h : Hub) (room id : Text)
    → member (take_from_room name s h) room id
      ≡ (if same_place name room s.id id then none else member h room id)
unfolding take_from_room text_eq
member-take_from_room name s h room id = by_found (lookup name h.rooms) refl
  where
    by_found :
        (o : Option Sockets)
        → lookup name h.rooms ≡ o
        → member
            (elim o [
              | none ↦ h
              | some m ↦
                  let left = erase s.id m in
                  let rooms' = insert name left h.rooms in
                  record h { rooms = if length left == 0 then erase name rooms' else rooms' }
            ])
            room
            id
          ≡ (if same_place name room s.id id then none else member h room id)
    by_found none e = ground (arith, by_room name room id h.rooms none e)
    by_found (some m) e =
        let left = erase s.id m in
        ground (
          arith,
          found-insert name room id left h.rooms,
          found-erase name room id (insert name left h.rooms),
          by_room name room id h.rooms (some m) e,
          lookup-erase s.id id m,
          nothing-lookup left id,
        )
