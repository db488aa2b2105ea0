-- ===== src/Database/Membership.antt =====
-- Who is a member of which room, in the two maps that the store keeps of it.
use sio.Base.{
  ◌≡◌, refl, ap, ◌∙◌, sym, Bool, true, false, ◌&&◌, List, [], ◌∷◌, Option, none, some,
  if◌then◌else◌, arith,
}
use sio.Base.Text.{Text, text_eq, text_eq_iff, text_key}
use sio.Base.Dict.{lookup, insert, erase, lookup-insert, lookup-erase}
use sio.Database.{
  DbRoomMember, InMemoryDb, Map2, inner, read2, write2, erase_inner, erase2, is_some,
  is_user_in_room, add_room_member, remove_room_member, delete_room, new_in_memory_db,
}

abbrev at : {A : Type 0} → Text → Text → Map2 A → Option A
at i j m = lookup j (read2 i m)

at-write2 :
    {A : Type 0} (i j i' j' : Text) (v : A) (m : Map2 A)
    → at i' j' (write2 i j v m) ≡ (if text_eq i i' && text_eq j j' then some v else at i' j' m)
unfolding write2 text_eq
at-write2 i j i' j' v m =
    ap (λ o. lookup j' (inner o)) (lookup-insert i i' (insert j v (read2 i m)) m)
    ∙ by_key (text_eq i i') refl
  where
    by_key :
        (b : Bool)
        → text_eq i i' ≡ b
        → lookup j' (inner (if b then some (insert j v (read2 i m)) else lookup i' m))
          ≡ (if b && text_eq j j' then some v else at i' j' m)
    by_key false e = refl
    by_key true e =
        lookup-insert j j' v (read2 i m)
        ∙ ap (λ k. if text_eq j j' then some v else at k j' m) ((text_eq_iff i i').0 e)

at-erase2 :
    {A : Type 0} (i j i' j' : Text) (m : Map2 A)
    → at i' j' (erase2 i j m) ≡ (if text_eq i i' && text_eq j j' then none else at i' j' m)
unfolding erase2 text_eq lookup
at-erase2 {A = A} i j i' j' m = by_row (lookup i m) refl
  where
    by_row :
        (o : Option (List (Text × A)))
        → lookup i m ≡ o
        → at i' j' (erase_inner i j m o)
          ≡ (if text_eq i i' && text_eq j j' then none else at i' j' m)
    by_row none e = by_key (text_eq i i') (text_eq j j') refl
      where
        by_key :
            (b c : Bool) → text_eq i i' ≡ b → at i' j' m ≡ (if b && c then none else at i' j' m)
        by_key false c q = refl
        by_key true false q = refl
        by_key true true q =
            ap (λ k. lookup j' (inner (lookup k m))) (sym ((text_eq_iff i i').0 q))
            ∙ ap (λ o. lookup j' (inner o)) e
    by_row (some row) e =
        ap (λ o. lookup j' (inner o)) (lookup-insert i i' (erase j row) m)
        ∙ by_key (text_eq i i') refl
      where
        by_key :
            (b : Bool)
            → text_eq i i' ≡ b
            → lookup j' (inner (if b then some (erase j row) else lookup i' m))
              ≡ (if b && text_eq j j' then none else at i' j' m)
        by_key false q = refl
        by_key true q =
            lookup-erase j j' row
            ∙ ap (λ o. if text_eq j j' then none else lookup j' (inner o))
                (sym e ∙ ap (λ k. lookup k m) ((text_eq_iff i i').0 q))

-- The calls that change who is where.
pub data Change : Type 0 where
  adds : DbRoomMember → Change
  removes : Text → Text → Change

abbrev pub change : Change → InMemoryDb → InMemoryDb
change (adds m) db = add_room_member m db
change (removes room user) db = remove_room_member room user db

abbrev pub changes : List Change → InMemoryDb → InMemoryDb
changes [] db = db
changes (c ∷ cs) db = changes cs (change c db)

-- Whether the user's own map has the room, which is what `GetUserRooms` ranges over.
abbrev pub listed : Text → Text → InMemoryDb → Bool
listed room user db = is_some (at user room db.user_rooms)

-- Whether the last change about a room and a user adds the user; `before` if there is none.
abbrev pub belongs : Text → Text → List Change → Bool → Bool
belongs room user [] before = before
belongs room user (adds m ∷ cs) before =
    belongs room user cs (if text_eq m.room_id room && text_eq m.user_id user then true else before)
belongs room user (removes r u ∷ cs) before =
    belongs room user cs (if text_eq r room && text_eq u user then false else before)

is_some-if :
    {A : Type 0} (b : Bool) (v o : Option A)
    → is_some (if b then v else o) ≡ (if b then is_some v else is_some o)
is_some-if true v o = refl
is_some-if false v o = refl

pub changed :
    (cs : List Change) (room user : Text) (db : InMemoryDb)
    → (is_user_in_room room user (changes cs db)
        ≡ belongs room user cs (is_user_in_room room user db))
      × (listed room user (changes cs db) ≡ belongs room user cs (listed room user db))
unfolding is_user_in_room add_room_member remove_room_member
changed [] room user db = (refl, refl)
changed (adds m ∷ cs) room user db =
    let rest = changed cs room user (add_room_member m db) in
    (
      rest.0
          ∙ ap (λ (b : Bool). belongs room user cs b)
              (ap is_some (at-write2 m.room_id m.user_id room user m db.room_members)
                ∙ is_some-if (text_eq m.room_id room && text_eq m.user_id user) (some m)
                    (at room user db.room_members)),
      rest.1
          ∙ ap (λ (b : Bool). belongs room user cs b)
              (ap is_some (at-write2 m.user_id m.room_id user room true db.user_rooms)
                ∙ is_some-if (text_eq m.user_id user && text_eq m.room_id room) (some true)
                    (at user room db.user_rooms)
                ∙ ap (λ (b : Bool). if b then true else listed room user db)
                    (swap (text_eq m.user_id user) (text_eq m.room_id room))),
    )
  where
    swap : (b c : Bool) → (b && c) ≡ (c && b)
    swap b c = ground arith
changed (removes r u ∷ cs) room user db =
    let rest = changed cs room user (remove_room_member r u db) in
    (
      rest.0
          ∙ ap (λ (b : Bool). belongs room user cs b)
              (ap is_some (at-erase2 r u room user db.room_members)
                ∙ is_some-if (text_eq r room && text_eq u user) none
                    (at room user db.room_members)),
      rest.1
          ∙ ap (λ (b : Bool). belongs room user cs b)
              (ap is_some (at-erase2 u r user room db.user_rooms)
                ∙ is_some-if (text_eq u user && text_eq r room) none (at user room db.user_rooms)
                ∙ ap (λ (b : Bool). if b then false else listed room user db)
                    (swap (text_eq u user) (text_eq r room))),
    )
  where
    swap : (b c : Bool) → (b && c) ≡ (c && b)
    swap b c = ground arith

-- Whatever members are added and removed, in whatever order and rooms, `IsUserInRoom` says yes
-- exactly if the last change about that room and user adds the user, and the map that
-- `GetUserRooms` ranges over says the same.
pub is_user_in_room-changes :
    (cs : List Change) (room user : Text)
    → let db = changes cs new_in_memory_db in
      (is_user_in_room room user db ≡ belongs room user cs false)
      × (listed room user db ≡ belongs room user cs false)
unfolding new_in_memory_db is_user_in_room lookup
is_user_in_room-changes cs room user = changed cs room user new_in_memory_db

-- `DeleteRoom` forgets the members of the room but not in the users' own maps: a user who was
-- listed there stays listed, also when the room is made again, while `IsUserInRoom` says no.
pub listed-delete_room :
    (room user : Text) (db : InMemoryDb)
    → (is_user_in_room room user (delete_room room db) ≡ false)
      × (listed room user (delete_room room db) ≡ listed room user db)
unfolding is_user_in_room delete_room lookup text_eq
listed-delete_room room user db = (
  ap (λ o. is_some (lookup user (inner o)))
      (lookup-erase room room db.room_members
        ∙ ap (λ (b : Bool). if b then none else lookup room db.room_members)
            ((text_eq_iff room room).1 refl)),
  refl,
)
