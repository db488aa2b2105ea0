-- ===== src/Chat/Outside.antt =====
-- What a client can change in a room that it is not in.
use sio.Base.{
  ℕ, ◌≡◌, ◌≢◌, refl, sym, ◌∙◌, Bool, true, false, if◌then◌else◌, if-false, if-true, ap, List, [],
  Option, none, some,
}
use sio.Base.Text.{Text, codes, text_eq, text_eq_iff, text_key}
use sio.Base.Dict.{lookup}
use sio.Websocket.Types.{Conn, Result, ok, err, stuck}
use sio.Websocket.Message.{write_text}
use sio.Chat.Types.{
  MessageType, ChatMessage, Incoming, join_room, leave_room, public_room, message, thread_reply,
  typing, read_receipt, file_share, media_share, call_invite, call_answer, call_end, webrtc_signal,
  screen_share, recording_start, recording_stop, error, failure,
}
use sio.Chat.Platform.{Platform}
use sio.Chat.State.{
  Client, Room, Server, in_room, after_write, deliver_to, deliver, send_encoded, send_message,
  send_error,
}
use sio.Chat.Rooms.{
  handle_leave_room, get_or_create_room, check_room_permission, allows, join_found,
  handle_join_room,
}
use sio.Chat.Creation.{Found, get_or_create_room-Found}
use mathlib.Core.Path.{subst}
use sio.Chat.Handlers.{
  Moment, handle_chat_message, handle_thread_reply, handle_typing, handle_read_receipt,
}
use sio.Chat.Shares.{handle_file_share, handle_media_share}
use sio.Chat.Relays.{
  handle_call_invite, handle_call_answer, handle_call_end, handle_webrtc_signal,
  handle_screen_share, handle_recording_start, handle_recording_stop,
}
use sio.Chat.Service.{route}
use sio.Chat.Quiet.{Holds}
use sio.Chat.Delivery.{written, deliver-objects}

-- Nothing but the object of one client, which a message was written to, and the goroutines that
-- this has started.
pub record IsOnlyTold {D : Type 0} (id : Text) (s s' : Server D) : Type 0 where
  pub rooms : s'.rooms ≡ s.rooms
  pub db : s'.db ≡ s.db
  pub clients : s'.clients ≡ s.clients
  pub typing_clients : s'.typing_clients ≡ s.typing_clients
  pub others : (i : Text) → text_eq id i ≡ false → lookup i s'.objects ≡ lookup i s.objects

module _ {D : Type 0} (p : Platform D) where
  untouched : (id : Text) (s : Server D) → IsOnlyTold id s s
  untouched id s = record {
    rooms = refl;
    db = refl;
    clients = refl;
    typing_clients = refl;
    others = λ i e. refl;
  }

  deliver-IsOnlyTold :
      (bytes : List ℕ) (id : Text) (s : Server D) → Holds s → IsOnlyTold id s (deliver p bytes id s)
  unfolding deliver text_eq
  deliver-IsOnlyTold bytes id s w =
      by_client (lookup id s.objects)
        (λ i e. deliver-objects p bytes id i s w ∙ if-false (text_eq id i) _ _ e)
    where
      after :
          (c : Client) (a : Result (Unit {0}) × Conn)
          → ((i : Text)
              → text_eq id i ≡ false
              → lookup i (after_write c a s).objects ≡ lookup i s.objects)
          → IsOnlyTold id s (after_write c a s)
      after c (ok u, conn') k = record {
        rooms = refl;
        db = refl;
        clients = refl;
        typing_clients = refl;
        others = k;
      }
      after c (err x, conn') k = record {
        rooms = refl;
        db = refl;
        clients = refl;
        typing_clients = refl;
        others = k;
      }
      after c (stuck, conn') k = record {
        rooms = refl;
        db = refl;
        clients = refl;
        typing_clients = refl;
        others = k;
      }

      by_client :
          (o : Option Client)
          → ((i : Text)
              → text_eq id i ≡ false
              → lookup i (deliver_to p bytes o s).objects ≡ lookup i s.objects)
          → IsOnlyTold id s (deliver_to p bytes o s)
      by_client none k = untouched id s
      by_client (some c) k = after c (write_text p.net bytes c.conn) k

  send_message-IsOnlyTold :
      (id : Text) (msg : ChatMessage) (s : Server D)
      → Holds s
      → IsOnlyTold id s (send_message p id msg s)
  unfolding send_message
  send_message-IsOnlyTold id msg s w = by_bytes (p.json.encode msg)
    where
      by_bytes : (o : Option (List ℕ)) → IsOnlyTold id s (send_encoded p o id s)
      by_bytes none = untouched id s
      by_bytes (some bytes) = deliver-IsOnlyTold bytes id s w

  send_error-IsOnlyTold :
      (now : ℕ) (id : Text) (code : ℕ) (text details : Text) (s : Server D)
      → Holds s
      → IsOnlyTold id s (send_error p now id code text details s)
  unfolding send_error
  send_error-IsOnlyTold now id code text details s w = send_message-IsOnlyTold id _ s w

  -- A handler's test of the room, which fails.
  refused :
      (id : Text) (b : Bool) (x y s : Server D)
      → b ≡ false
      → IsOnlyTold id s y
      → IsOnlyTold id s (if b then x else y)
  refused id true x y s e h = absurd cc
  refused id false x y s e h = h

  -- Where the invariant holds, a message of any kind but join_room that names a room its client is
  -- not in, by the client's own map, changes no room, nothing of the store, no typing entry, and
  -- no object of another client, so that nothing is written to another connection.
  pub route-outside :
      (t : Moment) (c : Client) (msg : Incoming) (kind : MessageType) (s : Server D)
      → Holds s
      → in_room msg.room_id c ≡ false
      → kind ≢ join_room
      → IsOnlyTold c.id s (route p t c msg kind s)
  unfolding route handle_call_invite handle_call_answer handle_call_end handle_webrtc_signal
      handle_screen_share handle_recording_start handle_recording_stop handle_leave_room
      handle_chat_message handle_thread_reply handle_typing handle_read_receipt handle_file_share
      handle_media_share
  route-outside t c msg join_room s w e k = absurd (k refl)
  route-outside t c msg leave_room s w e k =
      refused c.id _ _ _ s e (send_error-IsOnlyTold t.now c.id 400 _ _ s w)
  route-outside t c msg message s w e k =
      refused c.id _ _ _ s e (send_error-IsOnlyTold t.now c.id 403 _ _ s w)
  route-outside t c msg thread_reply s w e k =
      refused c.id _ _ _ s e (send_error-IsOnlyTold t.now c.id 403 _ _ s w)
  route-outside t c msg typing s w e k = refused c.id _ _ _ s e (untouched c.id s)
  route-outside t c msg read_receipt s w e k =
      refused c.id _ _ _ s e (send_error-IsOnlyTold t.now c.id 403 _ _ s w)
  route-outside t c msg file_share s w e k =
      refused c.id _ _ _ s e (send_error-IsOnlyTold t.now c.id 403 _ _ s w)
  route-outside t c msg media_share s w e k =
      refused c.id _ _ _ s e (send_error-IsOnlyTold t.now c.id 403 _ _ s w)
  route-outside t c msg call_invite s w e k =
      refused c.id _ _ _ s e (send_error-IsOnlyTold t.now c.id 403 _ _ s w)
  route-outside t c msg call_answer s w e k =
      refused c.id _ _ _ s e (send_error-IsOnlyTold t.now c.id 403 _ _ s w)
  route-outside t c msg call_end s w e k =
      refused c.id _ _ _ s e (send_error-IsOnlyTold t.now c.id 403 _ _ s w)
  route-outside t c msg webrtc_signal s w e k =
      refused c.id _ _ _ s e (send_error-IsOnlyTold t.now c.id 403 _ _ s w)
  route-outside t c msg screen_share s w e k =
      refused c.id _ _ _ s e (send_error-IsOnlyTold t.now c.id 403 _ _ s w)
  route-outside t c msg recording_start s w e k =
      refused c.id _ _ _ s e (send_error-IsOnlyTold t.now c.id 403 _ _ s w)
  route-outside t c msg recording_stop s w e k =
      refused c.id _ _ _ s e (send_error-IsOnlyTold t.now c.id 403 _ _ s w)
  route-outside t c msg kind s w e k = send_error-IsOnlyTold t.now c.id 400 _ _ s w

  -- The error message of a refused join.
  abbrev pub access_denied : ℕ → ChatMessage
  access_denied now = record {
    kind = error;
    room_id = [];
    message_id = [];
    payload = failure (record {
      code = 403;
      message = codes "Access denied";
      details = codes "Not authorized to join this room";
    });
    timestamp = now;
  }

  -- A client object whose connection has taken a message, if that could be encoded.
  abbrev pub told : Option (List ℕ) → Option Client → Option Client
  told none o = o
  told (some bytes) o = written p bytes o

  send_message-told :
      (id : Text) (msg : ChatMessage) (s : Server D)
      → Holds s
      → lookup id (send_message p id msg s).objects ≡ told (p.json.encode msg) (lookup id s.objects)
  unfolding send_message text_eq
  send_message-told id msg s w = by_bytes (p.json.encode msg)
    where
      by_bytes :
          (o : Option (List ℕ))
          → lookup id (send_encoded p o id s).objects ≡ told o (lookup id s.objects)
      by_bytes none = refl
      by_bytes (some bytes) =
          deliver-objects p bytes id id s w
          ∙ if-true (text_eq id id) _ _ ((text_eq_iff id id).1 refl)

  -- What a refusal leaves.
  abbrev IsRefused : ℕ → Text → Server D → Server D → Server D → Type 0
  IsRefused now id s s' after =
      IsOnlyTold id s' after
      × (lookup id after.objects ≡ told (p.json.encode (access_denied now)) (lookup id s.objects))

  denied :
      (now : ℕ) (id : Text) (s s' : Server D)
      → Holds s'
      → s'.objects ≡ s.objects
      → IsRefused now id s s' (
          send_error p now id 403
            (codes "Access denied")
            (codes "Not authorized to join this room")
            s')
  unfolding send_error
  denied now id s s' w same = (
    send_message-IsOnlyTold id (access_denied now) s' w,
    send_message-told id (access_denied now) s' w
        ∙ ap (λ os. told (p.json.encode (access_denied now)) (lookup id os)) same,
  )

  unless :
      (b : Bool) (P : Server D → Type 0) (x y : Server D) → b ≡ false → P y → P (if b then x else y)
  unless true P x y e h = absurd cc
  unless false P x y e h = h

  -- Where the invariant holds, a client that may not enter a room that is not public is refused:
  -- compared with the state in which the room has been found or made, no room, nothing of the
  -- store, no typing entry and no other client's object has changed; and the client's own object
  -- is as it was before, its rooms included, but for its connection, to which the error 403
  -- "Access denied" has been written, where encoding/json can encode it.
  pub handle_join_room-denied :
      (now : ℕ) (c : Client) (msg : Incoming) (r : Room) (s s' : Server D)
      → Holds s
      → get_or_create_room p now msg.room_id s ≡ (some r, s')
      → text_eq r.room_type public_room ≡ false
      → allows (check_room_permission p c.user_id msg.room_id s') ≡ false
      → let after = handle_join_room p now c msg s in
        IsOnlyTold c.id s' after
        × (lookup c.id after.objects
            ≡ told (p.json.encode (access_denied now)) (lookup c.id s.objects))
  unfolding handle_join_room
  handle_join_room-denied now c msg r s s' w e private refuses =
      subst (λ a. IsRefused now c.id s s' (join_found p now msg.room_id c a)) (sym e)
        (unless _ (IsRefused now c.id s s') _ _ private
          (unless _ (IsRefused now c.id s s') _ _ refuses (denied now c.id s s' found.0 found.1)))
    where
      found : Found msg.room_id s (some r, s')
      found = subst (λ a. Found msg.room_id s a) e (get_or_create_room-Found p now msg.room_id s w)
