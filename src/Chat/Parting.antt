-- ===== src/Chat/Parting.antt =====
-- Leaving keeps the invariant.
use sio.Base.{
  ℕ, ◌≡◌, refl, ap, sym, ◌∙◌, Bool, true, false, ◌&&◌, if◌then◌else◌, Option, none, some, arith,
}
use sio.Base.Text.{Text, text_eq, text_eq_iff, text_key, codes, has_prefix}
use sio.Base.Dict.{lookup, insert, erase, lookup-insert, lookup-erase}
use sio.Chat.Types.{Incoming}
use sio.Chat.Platform.{Platform}
use sio.Chat.State.{Client, Room, Server, in_room, present, send_error}
use sio.Chat.Rooms.{take_out, mark_left, leave, handle_leave_room, public_prefix}
use sio.Chat.Distinct.{take_out-AllDistinct}
use sio.Chat.Sound.{IsSound, knows, known, occupies, put-keyed, occupies-take_out, same_place}
use sio.Chat.Quiet.{Holds, broadcast-Holds, send_error-Holds}

module _ {D : Type 0} (p : Platform D) where
  -- Out of the room on both sides.
  left-Holds :
      (id : Text) (c : Client) (s : Server D)
      → Holds s
      → lookup c.id s.objects ≡ some c
      → Holds (mark_left p id c (take_out p id c.id (lookup id s.rooms) s))
  unfolding in_room text_eq
  left-Holds id c s w ec = by_found (lookup id s.rooms) sound
    where
      by_room :
          (room : Text) (b : Bool)
          → b ≡ false
          → lookup room (erase id c.rooms) ≡ (if b then none else lookup room c.rooms)
          → present (lookup room c.rooms) ≡ true
          → present (lookup room (erase id c.rooms)) ≡ true
      by_room room true q e h = absurd cc
      by_room room false q e h = ap present e ∙ h

      by_id :
          (room i : Text) (b : Bool)
          → text_eq c.id i ≡ b
          → (text_eq id room && b) ≡ false
          → lookup i (insert c.id (record c { rooms = erase id c.rooms }) s.objects)
            ≡ (if b then some (record c { rooms = erase id c.rooms }) else lookup i s.objects)
          → knows s.objects room i ≡ true
          → knows (insert c.id (record c { rooms = erase id c.rooms }) s.objects) room i ≡ true
      by_id room i true same q e h =
          ap (known room) e
          ∙ by_room room (text_eq id room) (ground (arith)) (lookup-erase id room c.rooms) (
              sym (
                ap (known room)
                  (ap (λ j. lookup j s.objects) (sym ((text_eq_iff c.id i).0 same)) ∙ ec))
              ∙ h)
      by_id room i false other q e h = ap (known room) e ∙ h

      by_place :
          (room i : Text) (b : Bool)
          → same_place id room c.id i ≡ b
          → (if b then false else occupies s.rooms room i) ≡ true
          → knows (insert c.id (record c { rooms = erase id c.rooms }) s.objects) room i ≡ true
      by_place room i true e h = absurd cc
      by_place room i false e h =
          by_id room i (text_eq c.id i) refl e
            (lookup-insert c.id i (record c { rooms = erase id c.rooms }) s.objects)
            (w.backed room i h)

      sound :
          IsSound
            (insert c.id (record c { rooms = erase id c.rooms }) s.objects)
            (take_out p id c.id (lookup id s.rooms) s).rooms
      sound = record {
        keyed = put-keyed (record c { rooms = erase id c.rooms }) s.objects w.keyed;
        backed = λ room i h.
            by_place room i (same_place id room c.id i) refl
              (sym (occupies-take_out p id c.id (lookup id s.rooms) s room i refl) ∙ h);
        distinct = take_out-AllDistinct p id c.id (lookup id s.rooms) s refl w.distinct;
      }

      by_found :
          (o : Option Room)
          → IsSound
              (insert c.id (record c { rooms = erase id c.rooms }) s.objects)
              (take_out p id c.id o s).rooms
          → Holds (mark_left p id c (take_out p id c.id o s))
      by_found none h = h
      by_found (some r) h = h

  pub leave-Holds :
      (now : ℕ) (id : Text) (c : Client) (s : Server D)
      → Holds s
      → lookup c.id s.objects ≡ some c
      → Holds (leave p now id c s)
  unfolding leave
  leave-Holds now id c s w ec =
      broadcast-Holds p id _ c.id _ (stored (has_prefix id public_prefix) (left-Holds id c s w ec))
    where
      stored :
          (b : Bool)
          → Holds (mark_left p id c (take_out p id c.id (lookup id s.rooms) s))
          → Holds (
              let out = mark_left p id c (take_out p id c.id (lookup id s.rooms) s) in
              if b
              then out
              else record out { db = (p.db.remove_room_member id c.user_id out.db).1 })
      stored true h = h
      stored false h = h

  pub handle_leave_room-Holds :
      (now : ℕ) (c : Client) (msg : Incoming) (s : Server D)
      → Holds s
      → lookup c.id s.objects ≡ some c
      → Holds (handle_leave_room p now c msg s)
  unfolding handle_leave_room
  handle_leave_room-Holds now c msg s w ec = by_member (in_room msg.room_id c)
    where
      by_member :
          (b : Bool)
          → Holds (
              if b
              then leave p now msg.room_id c s
              else send_error p now c.id 400
                  (codes "Not in room")
                  (codes "You are not in this room")
                  s)
      by_member true = leave-Holds now msg.room_id c s w ec
      by_member false = send_error-Holds p now c.id 400 _ _ s w
