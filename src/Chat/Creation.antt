-- ===== src/Chat/Creation.antt =====
-- Rooms that are found or made.
use sio.Base.Names.{is_in, IsDistinct}
use sio.Base.{
  ℕ, ◌≡◌, refl, ap, sym, ◌∙◌, Bool, true, false, if◌then◌else◌, if-true, [], Option, none, some,
}
use mathlib.Core.Path.{subst}
use sio.Base.Text.{Text, text_eq, text_eq_iff, text_key}
use sio.Base.Dict.{lookup, lookup-insert}
use sio.Database.{DbRoom}
use sio.Chat.Types.{public_room, dm_room}
use sio.Chat.Platform.{Platform}
use sio.Chat.State.{Room, Server}
use sio.Chat.Rooms.{
  type_of_id, keep_room, after_create, from_store, create_by_type, or_create, get_or_create_room,
  room_of, new_room, stored_room,
}
use sio.Chat.Distinct.{insert-AllDistinct}
use sio.Chat.Sound.{occupies, occupies-insert}
use sio.Chat.Quiet.{Holds}

-- A room that was found, or none, with the objects as they were.
abbrev pub Found : {D : Type 0} → Text → Server D → Option Room × Server D → Type 0
Found id s (none, s') = Holds s' × (s'.objects ≡ s.objects)
Found id s (some r, s') = Holds s' × (s'.objects ≡ s.objects) × (lookup id s'.rooms ≡ some r)

module _ {D : Type 0} (p : Platform D) where
  -- A new room that has no one in it.
  keep_room-Found :
      (id : Text) (r : Room) (s : Server D)
      → r.clients ≡ []
      → Holds s
      → Found id s (keep_room p id r s)
  unfolding lookup text_eq
  keep_room-Found id r s empty w = (
    record {
      keyed = w.keyed;
      backed = λ room i h.
          w.backed room i
            (by_name (text_eq id room) room i (sym (occupies-insert id room i r s.rooms) ∙ h));
      distinct =
          insert-AllDistinct id r s.rooms (subst (λ m. IsDistinct m) (sym empty) tt) w.distinct;
    },
    refl,
    lookup-insert id id r s.rooms
        ∙ if-true (text_eq id id) (some r) (lookup id s.rooms) ((text_eq_iff id id).1 refl),
  )
    where
      by_name :
          (b : Bool) (room i : Text)
          → (if b then is_in (lookup i r.clients) else occupies s.rooms room i) ≡ true
          → occupies s.rooms room i ≡ true
      by_name true room i h = absurd (no_one (sym (ap (λ m. is_in (lookup i m)) empty) ∙ h))
        where
          no_one : false ≡ true → ⊥
          no_one q = cc
      by_name false room i h = h

  pub get_or_create_room-Found :
      (now : ℕ) (id : Text) (s : Server D) → Holds s → Found id s (get_or_create_room p now id s)
  unfolding get_or_create_room
  get_or_create_room-Found now id s w = by_room (lookup id s.rooms) refl
    where
      made : (r : DbRoom) (a : Bool × D) → Found id s (after_create p id r a s)
      made r (true, db) = keep_room-Found id (room_of r) (record s { db = db }) refl w
      made r (false, db) = (w, refl)

      stored : (t : Text) (o : Option DbRoom) → Found id s (from_store p now id t o s)
      stored t (some r) = keep_room-Found id (room_of r) s refl w
      stored t none = by_dm (text_eq t dm_room)
        where
          by_dm :
              (b : Bool)
              → Found id s (
                  if b
                  then after_create p id
                      (stored_room now id t)
                      (p.db.create_room (stored_room now id t) s.db)
                      s
                  else (none, s))
          by_dm true = made (stored_room now id t) (p.db.create_room (stored_room now id t) s.db)
          by_dm false = (w, refl)

      typed : (o : Option Text) → Found id s (create_by_type p now id o s)
      typed none = (w, refl)
      typed (some t) = by_public (text_eq t public_room)
        where
          by_public :
              (b : Bool)
              → Found id s (
                  if b
                  then keep_room p id (new_room now id t) s
                  else from_store p now id t (p.db.get_room id s.db) s)
          by_public true = keep_room-Found id (new_room now id t) s refl w
          by_public false = stored t (p.db.get_room id s.db)

      by_room : (o : Option Room) → lookup id s.rooms ≡ o → Found id s (or_create p now id o s)
      by_room (some r) e = (w, refl, e)
      by_room none e = typed (type_of_id id)
