-- ===== src/Websocket/Rooms/Members.antt =====
-- Who is in a room of the websocket server, and whom a broadcast reaches.
use sio.Base.Names.{is_in, is_in-if, nothing-in}
use sio.Base.{
  ◌==◌, ◌≡◌, refl, ap, sym, ◌∙◌, Bool, true, false, ◌&&◌, if◌then◌else◌, List, [], ◌∷◌, Option,
  none, some, length, arith,
}
use sio.Base.Text.{Text, text_eq, text_eq_iff, text_key}
use sio.Base.Dict.{lookup, insert, erase, lookup-insert, lookup-erase}
use sio.Websocket.Rooms.{ConnSet, RoomMap, or_nil, conns_of, enter_room, take_conn, quit_room}

abbrev pub member : RoomMap → Text → Text → Bool
member rooms room c = is_in (lookup c (conns_of room rooms))

member-insert :
    (name : Text) (m : ConnSet) (rooms : RoomMap) (room c : Text)
    → member (insert name m rooms) room c
      ≡ (if text_eq name room then is_in (lookup c m) else member rooms room c)
unfolding conns_of text_eq
member-insert name m rooms room c =
    ap (λ o. is_in (lookup c (or_nil o))) (lookup-insert name room m rooms)
    ∙ by_name (text_eq name room)
  where
    by_name :
        (b : Bool)
        → is_in (lookup c (or_nil (if b then some m else lookup room rooms)))
          ≡ (if b then is_in (lookup c m) else member rooms room c)
    by_name true = refl
    by_name false = refl

member-erase :
    (name : Text) (rooms : RoomMap) (room c : Text)
    → member (erase name rooms) room c ≡ (if text_eq name room then false else member rooms room c)
unfolding conns_of text_eq lookup
member-erase name rooms room c =
    ap (λ o. is_in (lookup c (or_nil o))) (lookup-erase name room rooms)
    ∙ by_name (text_eq name room)
  where
    by_name :
        (b : Bool)
        → is_in (lookup c (or_nil (if b then none else lookup room rooms)))
          ≡ (if b then false else member rooms room c)
    by_name true = refl
    by_name false = refl

member-enter_room :
    (name who : Text) (rooms : RoomMap) (room c : Text)
    → member (enter_room name who rooms) room c
      ≡ (if text_eq name room && text_eq who c then true else member rooms room c)
unfolding enter_room conns_of text_eq
member-enter_room name who rooms room c =
    ap (λ o. is_in (lookup c (or_nil o)))
      (lookup-insert name room (insert who tt (conns_of name rooms)) rooms)
    ∙ by_name (text_eq name room) refl
  where
    by_name :
        (b : Bool)
        → text_eq name room ≡ b
        → is_in (
            lookup c (
              or_nil (if b then some (insert who tt (conns_of name rooms)) else lookup room rooms)))
          ≡ (if b && text_eq who c then true else member rooms room c)
    by_name true e =
        ap is_in (lookup-insert who c tt (conns_of name rooms))
        ∙ is_in-if (text_eq who c) (some tt) (lookup c (conns_of name rooms))
        ∙ ap (λ r. if text_eq who c then true else member rooms r c) ((text_eq_iff name room).0 e)
    by_name false e = refl

member-quit_room :
    (name who : Text) (rooms : RoomMap) (room c : Text)
    → member (quit_room name who rooms) room c
      ≡ (if text_eq name room && text_eq who c then false else member rooms room c)
unfolding quit_room conns_of text_eq lookup
member-quit_room name who rooms room c = by_found (lookup name rooms) refl
  where
    same_room :
        (o : Option ConnSet)
        → lookup name rooms ≡ o
        → text_eq name room ≡ true
        → member rooms room c ≡ is_in (lookup c (or_nil o))
    same_room o e same =
        ap (λ r. is_in (lookup c (or_nil (lookup r rooms)))) (sym ((text_eq_iff name room).0 same))
        ∙ ap (λ o. is_in (lookup c (or_nil o))) e

    by_empty :
        (m : ConnSet) (b : Bool)
        → lookup name rooms ≡ some m
        → (length (erase who m) == 0) ≡ b
        → member
            (if b
              then erase name (insert name (erase who m) rooms)
              else insert name (erase who m) rooms)
            room
            c
          ≡ (if text_eq name room && text_eq who c then false else member rooms room c)
    by_empty m true e q = ground (
      arith,
      member-erase name (insert name (erase who m) rooms) room c,
      member-insert name (erase who m) rooms room c,
      same_room (some m) e,
      ap is_in (lookup-erase who c m) ∙ is_in-if (text_eq who c) none (lookup c m),
      nothing-in (erase who m) c q,
    )
    by_empty m false e q = ground (
      arith,
      member-insert name (erase who m) rooms room c,
      same_room (some m) e,
      ap is_in (lookup-erase who c m) ∙ is_in-if (text_eq who c) none (lookup c m),
    )

    absent : (b d m : Bool) → (b ≡ true → m ≡ false) → m ≡ (if b && d then false else m)
    absent b d m h = ground (arith)

    by_found :
        (o : Option ConnSet)
        → lookup name rooms ≡ o
        → member (take_conn name who o rooms) room c
          ≡ (if text_eq name room && text_eq who c then false else member rooms room c)
    by_found none e =
        absent (text_eq name room) (text_eq who c) (member rooms room c) (same_room none e)
    by_found (some m) e = by_empty m (length (erase who m) == 0) e refl

-- Joins and leaves, one after the other.
pub data Change : Type 0 where
  enters quits : Text → Text → Change

abbrev pub change : Change → RoomMap → RoomMap
change (enters room c) rooms = enter_room room c rooms
change (quits room c) rooms = quit_room room c rooms

abbrev pub changes : List Change → RoomMap → RoomMap
changes [] rooms = rooms
changes (x ∷ xs) rooms = changes xs (change x rooms)

-- Whether the last of the changes of a connection in a room is that it joins; with none of them,
-- what was so before.
abbrev pub noted : Text → Text → Change → Bool → Bool
noted room c (enters name who) before = if text_eq name room && text_eq who c then true else before
noted room c (quits name who) before = if text_eq name room && text_eq who c then false else before

abbrev pub is_listed : List Change → Text → Text → Bool → Bool
is_listed [] room c before = before
is_listed (x ∷ xs) room c before = is_listed xs room c (noted room c x before)

-- After any joins and leaves, a connection is in a room exactly if its last call for this room
-- was a join.
pub member-changes :
    (xs : List Change) (rooms : RoomMap) (room c : Text)
    → member (changes xs rooms) room c ≡ is_listed xs room c (member rooms room c)
member-changes [] rooms room c = refl
member-changes (x ∷ xs) rooms room c =
    member-changes xs (change x rooms) room c ∙ ap (is_listed xs room c) (one x)
  where
    one : (x : Change) → member (change x rooms) room c ≡ noted room c x (member rooms room c)
    one (enters name who) = member-enter_room name who rooms room c
    one (quits name who) = member-quit_room name who rooms room c
