-- ===== src/Chat/Admitted.antt =====
-- Who may join a group room, and joins it.
use sio.Base.{
  ℕ, ◌≡◌, refl, ap, sym, ◌∙◌, Bool, true, false, ◌&&◌, if◌then◌else◌, if-true, if-false, Option,
  none, some,
}
use mathlib.Core.Path.{subst}
use sio.Base.Text.{text_eq, text_eq_iff, text_key, has_prefix}
use sio.Base.Dict.{lookup, insert}
use sio.Database.{DbRoom}
use sio.Chat.Types.{Incoming, public_room, group_room}
use sio.Chat.Platform.{Platform}
use sio.Chat.State.{Client, Room, Server}
use sio.Chat.Rooms.{
  public_prefix, group_prefix, type_of_id, room_of, allows, create_by_type, from_store, or_create,
  get_or_create_room, check_room_permission, join, join_found, handle_join_room,
}
use sio.Chat.Sound.{occupies, same_place}
use sio.Chat.Quiet.{Holds}
use sio.Chat.Creation.{Found, get_or_create_room-Found}
use sio.Chat.Entering.{join-in}

module _ {D : Type 0} (p : Platform D) where
  -- A client with permission that asks to join a group room of the store's is in it.
  pub admitted :
      (later : ℕ) (c : Client) (msg : Incoming) (d : DbRoom) (s : Server D)
      → Holds s
      → lookup c.id s.objects ≡ some c
      → has_prefix msg.room_id public_prefix ≡ false
      → has_prefix msg.room_id group_prefix ≡ true
      → p.db.get_room msg.room_id s.db ≡ some d
      → check_room_permission p c.user_id msg.room_id s ≡ some true
      → occupies (handle_join_room p later c msg s).rooms msg.room_id c.id ≡ true
  unfolding handle_join_room get_or_create_room check_room_permission type_of_id text_eq
  admitted later c msg d s w e np group kept may = by_room (lookup msg.room_id s.rooms) refl
    where
      typed : type_of_id msg.room_id ≡ some group_room
      typed =
          if-false (has_prefix msg.room_id public_prefix) (some public_room) _ np
          ∙ if-true (has_prefix msg.room_id group_prefix) (some group_room) _ group

      same : same_place msg.room_id msg.room_id c.id c.id ≡ true
      same =
          ap (λ b. b && text_eq c.id c.id) ((text_eq_iff msg.room_id msg.room_id).1 refl)
          ∙ (text_eq_iff c.id c.id).1 refl

      chosen :
          (b a : Bool) (x y : Server D)
          → a ≡ true
          → occupies x.rooms msg.room_id c.id ≡ true
          → occupies (if b then x else if a then x else y).rooms msg.room_id c.id ≡ true
      chosen true a x y q h = h
      chosen false true x y q h = h
      chosen false false x y q h = absurd cc

      entered :
          (rm : Room) (s1 : Server D)
          → get_or_create_room p later msg.room_id s ≡ (some rm, s1)
          → s1.db ≡ s.db
          → occupies (handle_join_room p later c msg s).rooms msg.room_id c.id ≡ true
      entered rm s1 got same_db =
          let found =
            subst (λ a. Found msg.room_id s a) got
              (get_or_create_room-Found p later msg.room_id s w) in
          subst (λ a. occupies (join_found p later msg.room_id c a).rooms msg.room_id c.id ≡ true)
            (sym got)
            (chosen (text_eq rm.room_type public_room) _ (join p later msg.room_id rm c s1) _
              (ap allows (
                ap
                  (λ (db : D). check_room_permission p c.user_id msg.room_id (record s { db = db }))
                  same_db
                ∙ may))
              ((join-in p later msg.room_id rm c s1 msg.room_id c.id found.0 found.2
                  (ap (λ os. lookup c.id os) found.1 ∙ e)).0
                ∙ if-true (same_place msg.room_id msg.room_id c.id c.id) true _ same))

      by_room :
          (o : Option Room)
          → lookup msg.room_id s.rooms ≡ o
          → occupies (handle_join_room p later c msg s).rooms msg.room_id c.id ≡ true
      by_room (some rm) q = entered rm s (ap (λ x. or_create p later msg.room_id x s) q) refl
      by_room none q =
          entered (room_of d) (record s { rooms = insert msg.room_id (room_of d) s.rooms })
            (ap (λ x. or_create p later msg.room_id x s) q
              ∙ ap (λ x. create_by_type p later msg.room_id x s) typed
              ∙ ap (λ x. from_store p later msg.room_id group_room x s) kept)
            refl
