-- ===== src/Chat/Entering.antt =====
-- What joining and leaving come to.
use sio.Base.{
  ℕ, ◌≡◌, refl, ap, ◌∙◌, Bool, true, false, ◌&&◌, if◌then◌else◌, if-true, List, [], ◌∷◌, Option,
  none, some,
}
use mathlib.Core.Path.{subst}
use sio.Base.Text.{Text, text_eq, text_eq_iff, text_key, has_prefix}
use sio.Base.Dict.{lookup}
use sio.Database.{DbMessage}
use sio.Chat.Types.{Incoming, public_room}
use sio.Chat.Platform.{Platform}
use sio.Chat.State.{Client, Room, Server, in_room}
use sio.Chat.Rooms.{
  or_create, get_or_create_room, enter, take_out, mark_joined, mark_left, add_member, send_history,
  join, leave, handle_leave_room, public_prefix,
}
use sio.Chat.Sound.{knows, occupies, occupies-enter, occupies-take_out, same_place}
use sio.Chat.Quiet.{Holds, broadcast-rooms, send_message-rooms}
use sio.Chat.Creation.{Found, get_or_create_room-Found}
use sio.Chat.Membership.{join-Holds}

module _ {D : Type 0} (p : Platform D) where
  -- A room that getOrCreateRoom has found or made is there for every later call, which changes
  -- nothing.
  pub get_or_create_room_twice :
      (now later : ℕ) (id : Text) (r : Room) (s s' : Server D)
      → Holds s
      → get_or_create_room p now id s ≡ (some r, s')
      → get_or_create_room p later id s' ≡ (some r, s')
  unfolding get_or_create_room
  get_or_create_room_twice now later id r s s' w e =
      ap (λ o. or_create p later id o s')
        (subst (λ a. Found id s a) e (get_or_create_room-Found p now id s w)).2

  enter-rooms :
      (now : ℕ) (id : Text) (r : Room) (c : Client) (s : Server D)
      → (join p now id r c s).rooms ≡ (enter p id c.id (lookup id s.rooms) s).rooms
  unfolding join
  enter-rooms now id r c s =
      send_message-rooms p c.id _ _
      ∙ broadcast-rooms p id _ c.id _
      ∙ told (p.db.get_messages id 50 0 _) _
      ∙ stored (text_eq r.room_type public_room)
    where
      told :
          (o : Option (List DbMessage)) (s' : Server D)
          → (send_history p now id c.id o s').rooms ≡ s'.rooms
      told none s' = refl
      told (some []) s' = refl
      told (some (m ∷ ms)) s' = send_message-rooms p c.id _ s'

      stored :
          (b : Bool)
          → (if b
              then mark_joined p id c (enter p id c.id (lookup id s.rooms) s)
              else add_member p now id c
                  (mark_joined p id c (enter p id c.id (lookup id s.rooms) s))).rooms
            ≡ (enter p id c.id (lookup id s.rooms) s).rooms
      stored true = refl
      stored false = refl

  -- Where the invariant holds, a client with an object of its own that joins a room that the
  -- server has is in it, as the server and as its object have it, and everyone else is in the
  -- rooms where they were.
  pub join-in :
      (now : ℕ) (id : Text) (r : Room) (c : Client) (s : Server D) (room i : Text)
      → Holds s
      → lookup id s.rooms ≡ some r
      → lookup c.id s.objects ≡ some c
      → (occupies (join p now id r c s).rooms room i
          ≡ (if same_place id room c.id i then true else occupies s.rooms room i))
        × (knows (join p now id r c s).objects id c.id ≡ true)
  unfolding text_eq
  join-in now id r c s room i w er ec = (
    here room i,
    (join-Holds p now id r c s w er ec).backed id c.id
        (here id c.id ∙ if-true (same_place id id c.id c.id) true _ same),
  )
    where
      here :
          (room i : Text)
          → occupies (join p now id r c s).rooms room i
            ≡ (if same_place id room c.id i then true else occupies s.rooms room i)
      here room i =
          ap (λ rs. occupies rs room i)
            (enter-rooms now id r c s ∙ ap (λ o. (enter p id c.id o s).rooms) er)
          ∙ occupies-enter p id c.id r s room i er

      same : same_place id id c.id c.id ≡ true
      same =
          ap (λ b. b && text_eq c.id c.id) ((text_eq_iff id id).1 refl)
          ∙ (text_eq_iff c.id c.id).1 refl

  leave-rooms :
      (now : ℕ) (id : Text) (c : Client) (s : Server D)
      → (leave p now id c s).rooms ≡ (take_out p id c.id (lookup id s.rooms) s).rooms
  unfolding leave
  leave-rooms now id c s = broadcast-rooms p id _ c.id _ ∙ stored (has_prefix id public_prefix)
    where
      stored :
          (b : Bool)
          → (let out = mark_left p id c (take_out p id c.id (lookup id s.rooms) s) in
              if b
              then out
              else record out { db = (p.db.remove_room_member id c.user_id out.db).1 }).rooms
            ≡ (take_out p id c.id (lookup id s.rooms) s).rooms
      stored true = refl
      stored false = refl

  -- A leave_room of a client that is in the room takes this client out of this room and no one
  -- out of another.
  pub handle_leave_room-out :
      (now : ℕ) (c : Client) (msg : Incoming) (s : Server D) (room i : Text)
      → in_room msg.room_id c ≡ true
      → occupies (handle_leave_room p now c msg s).rooms room i
        ≡ (if same_place msg.room_id room c.id i then false else occupies s.rooms room i)
  unfolding handle_leave_room
  handle_leave_room-out now c msg s room i e =
      ap (λ (x : Server D). occupies x.rooms room i)
        (if-true (in_room msg.room_id c) (leave p now msg.room_id c s) _ e)
      ∙ ap (λ rs. occupies rs room i) (leave-rooms now msg.room_id c s)
      ∙ occupies-take_out p msg.room_id c.id (lookup msg.room_id s.rooms) s room i refl
