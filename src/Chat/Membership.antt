-- ===== src/Chat/Membership.antt =====
-- Joining keeps the invariant.
use sio.Base.{
  ℕ, ◌≡◌, refl, ap, sym, ◌∙◌, Bool, true, false, if◌then◌else◌, if-true, List, [], ◌∷◌, Option,
  none, some, and_left, and_right,
}
use mathlib.Core.Path.{subst}
use sio.Base.Text.{Text, text_eq, text_key, codes}
use sio.Base.Dict.{lookup, insert, lookup-insert}
use sio.Database.{DbMessage}
use sio.Chat.Types.{Incoming, public_room}
use sio.Chat.Platform.{Platform}
use sio.Chat.State.{Client, Room, Server, in_room, present, send_error}
use sio.Chat.Rooms.{
  get_or_create_room, enter, mark_joined, add_member, send_history, join, join_found,
  handle_join_room, allows, check_room_permission,
}
use sio.Chat.Distinct.{enter-AllDistinct}
use sio.Chat.Sound.{knows, known, occupies, occupies-enter, same_place}
use sio.Chat.Quiet.{
  Holds, put_client-Holds, send_message-Holds, broadcast-Holds, send_error-Holds,
  send_failure-Holds,
}
use sio.Chat.Creation.{Found, get_or_create_room-Found}

module _ {D : Type 0} (p : Platform D) where
  send_history-Holds :
      (now : ℕ) (id client : Text) (o : Option (List DbMessage)) (s : Server D)
      → Holds s
      → Holds (send_history p now id client o s)
  send_history-Holds now id client none s w = w
  send_history-Holds now id client (some []) s w = w
  send_history-Holds now id client (some (m ∷ ms)) s w = send_message-Holds p client _ s w

  -- The room that the server has, and the object that it knows.
  pub entered-Holds :
      (id : Text) (r : Room) (c : Client) (s : Server D)
      → Holds s
      → lookup id s.rooms ≡ some r
      → lookup c.id s.objects ≡ some c
      → Holds (mark_joined p id c (enter p id c.id (some r) s))
  unfolding in_room text_eq
  entered-Holds id r c s w er ec =
      let joined : Client = record c { rooms = insert id true c.rooms } in
      let put =
        put_client-Holds c joined s w ec
          (λ room h. by_room room (text_eq id room) (lookup-insert id room true c.rooms) h) in
      record {
        keyed = put.keyed;
        backed = λ room i h.
            by_place room i (same_place id room c.id i) refl put.backed
              (sym (occupies-enter p id c.id r s room i er) ∙ h);
        distinct = enter-AllDistinct p id c.id (some r) s er w.distinct;
      }
    where
      by_room :
          (room : Text) (b : Bool)
          → lookup room (insert id true c.rooms) ≡ (if b then some true else lookup room c.rooms)
          → present (lookup room c.rooms) ≡ true
          → present (lookup room (insert id true c.rooms)) ≡ true
      by_room room true e h = ap present e
      by_room room false e h = ap present e ∙ h

      by_place :
          (room i : Text) (b : Bool)
          → same_place id room c.id i ≡ b
          → ((room i : Text)
              → occupies s.rooms room i ≡ true
              → knows (insert c.id (record c { rooms = insert id true c.rooms }) s.objects) room i
                ≡ true)
          → (if b then true else occupies s.rooms room i) ≡ true
          → knows (insert c.id (record c { rooms = insert id true c.rooms }) s.objects) room i
            ≡ true
      by_place room i true e back h =
          let joined : Client = record c { rooms = insert id true c.rooms } in
          ap (known room) (
            lookup-insert c.id i joined s.objects
            ∙ if-true (text_eq c.id i) (some joined) (lookup i s.objects)
                (and_right (text_eq id room) (text_eq c.id i) e))
          ∙ ap present (
              lookup-insert id room true c.rooms
              ∙ if-true (text_eq id room) (some true) (lookup room c.rooms)
                  (and_left (text_eq id room) (text_eq c.id i) e))
      by_place room i false e back h = back room i h

  pub join-Holds :
      (now : ℕ) (id : Text) (r : Room) (c : Client) (s : Server D)
      → Holds s
      → lookup id s.rooms ≡ some r
      → lookup c.id s.objects ≡ some c
      → Holds (join p now id r c s)
  unfolding join
  join-Holds now id r c s w er ec = send_message-Holds p c.id _ _ (
      broadcast-Holds p id _ c.id _ (
        send_history-Holds now id c.id _ _ (
          stored (text_eq r.room_type public_room) (
            subst (λ o. Holds (mark_joined p id c (enter p id c.id o s))) (sym er)
              (entered-Holds id r c s w er ec)))))
    where
      stored :
          (b : Bool)
          → Holds (mark_joined p id c (enter p id c.id (lookup id s.rooms) s))
          → Holds (
              if b
              then mark_joined p id c (enter p id c.id (lookup id s.rooms) s)
              else add_member p now id c
                  (mark_joined p id c (enter p id c.id (lookup id s.rooms) s)))
      stored true h = h
      stored false h = h

  pub handle_join_room-Holds :
      (now : ℕ) (c : Client) (msg : Incoming) (s : Server D)
      → Holds s
      → lookup c.id s.objects ≡ some c
      → Holds (handle_join_room p now c msg s)
  unfolding handle_join_room
  handle_join_room-Holds now c msg s w ec =
      by_room (get_or_create_room p now msg.room_id s)
        (get_or_create_room-Found p now msg.room_id s w)
    where
      by_type :
          (b allowed : Bool) (r : Room) (s' : Server D)
          → Holds s'
          → lookup msg.room_id s'.rooms ≡ some r
          → lookup c.id s'.objects ≡ some c
          → Holds (
              if b
              then join p now msg.room_id r c s'
              else if allowed
              then join p now msg.room_id r c s'
              else send_error p now c.id 403
                  (codes "Access denied")
                  (codes "Not authorized to join this room")
                  s')
      by_type true allowed r s' w' er ec' = join-Holds now msg.room_id r c s' w' er ec'
      by_type false true r s' w' er ec' = join-Holds now msg.room_id r c s' w' er ec'
      by_type false false r s' w' er ec' = send_error-Holds p now c.id 403 _ _ s' w'

      by_room :
          (a : Option Room × Server D)
          → Found msg.room_id s a
          → Holds (join_found p now msg.room_id c a)
      by_room (none, s') f = send_failure-Holds p now c.id 404 _ s' f.0
      by_room (some r, s') (w', same, er) =
          by_type (text_eq r.room_type public_room)
            (allows (check_room_permission p c.user_id msg.room_id s')) r s' w' er
            (ap (lookup c.id) same ∙ ec)
