-- ===== src/Chat/Kept.antt =====
-- Every handler of a message keeps the invariant.
use sio.Base.{◌≡◌, pos, ltz, Bool, true, false, if◌then◌else◌, [], Option, none, some}
use sio.Base.Text.{Text, text_key}
use sio.Base.Dict.{lookup, insert}
use sio.Database.{DbMessage}
use sio.Chat.Types.{
  ChatMessage, Incoming, Payload, MessagePayload, ThreadReplyPayload, TypingPayload,
  ReadReceiptPayload, FileSharePayload, MediaSharePayload,
}
use sio.Chat.Platform.{Platform}
use sio.Chat.State.{Client, Server, in_room}
use sio.Chat.Handlers.{
  Moment, announce, chat, handle_chat_message, thread, thread_parsed, handle_thread_reply,
  note_typing, typing_parsed, handle_typing, receipt_saved, receipt_parsed, handle_read_receipt,
  not_in_room, invalid_payload,
}
use sio.Chat.Shares.{
  max_file_size, file_parsed, handle_file_share, media_parsed, handle_media_share,
}
use sio.Chat.Relays.{relay, if_in_room}
use sio.Chat.Quiet.{
  Holds, put_client-Holds, send_message-Holds, broadcast-Holds, send_error-Holds,
  send_failure-Holds,
}

pub either-Holds :
    {D : Type 0} (b : Bool) (x y : Server D) → Holds x → Holds y → Holds (if b then x else y)
either-Holds true x y h k = h
either-Holds false x y h k = k

module _ {D : Type 0} (p : Platform D) where
  not_in_room-Holds :
      (t : Moment) (c : Client) (s : Server D) → Holds s → Holds (not_in_room p t c s)
  not_in_room-Holds t c s w = send_error-Holds p t.now c.id 403 _ _ s w

  invalid_payload-Holds :
      (t : Moment) (c : Client) (s : Server D) → Holds s → Holds (invalid_payload p t c s)
  invalid_payload-Holds t c s w = send_failure-Holds p t.now c.id 400 _ s w

  announce-Holds :
      (t : Moment) (c : Client) (room : Text) (msg : ChatMessage) (ack_room failed : Text)
      (a : Bool × D) (s : Server D)
      → Holds s
      → Holds (announce p t c room msg ack_room failed a s)
  announce-Holds t c room msg ack_room failed (true, db) s w =
      send_message-Holds p c.id _ _ (broadcast-Holds p room msg [] (record s { db = db }) w)
  announce-Holds t c room msg ack_room failed (false, db) s w =
      send_failure-Holds p t.now c.id 500 failed (record s { db = db }) w

  pub handle_chat_message-Holds :
      (t : Moment) (c : Client) (msg : Incoming) (s : Server D)
      → Holds s
      → Holds (handle_chat_message p t c msg s)
  unfolding handle_chat_message
  handle_chat_message-Holds t c msg s w =
      either-Holds (in_room msg.room_id c) _ _ (parsed (p.json.parse_message msg.payload))
        (not_in_room-Holds t c s w)
    where
      parsed : (o : Option MessagePayload) → Holds (chat p t c msg o s)
      parsed none = invalid_payload-Holds t c s w
      parsed (some payload) = announce-Holds t c msg.room_id _ msg.room_id _ _ s w

  pub handle_thread_reply-Holds :
      (t : Moment) (c : Client) (msg : Incoming) (s : Server D)
      → Holds s
      → Holds (handle_thread_reply p t c msg s)
  unfolding handle_thread_reply
  handle_thread_reply-Holds t c msg s w =
      either-Holds (in_room msg.room_id c) _ _ (parsed (p.json.parse_reply msg.payload))
        (not_in_room-Holds t c s w)
    where
      found :
          (payload : ThreadReplyPayload) (o : Option DbMessage)
          → Holds (thread p t c msg payload o s)
      found payload none = send_failure-Holds p t.now c.id 404 _ s w
      found payload (some parent) = announce-Holds t c msg.room_id _ msg.room_id _ _ s w

      parsed : (o : Option ThreadReplyPayload) → Holds (thread_parsed p t c msg o s)
      parsed none = invalid_payload-Holds t c s w
      parsed (some payload) = found payload (p.db.get_message payload.parent_message_id s.db)

  note_typing-Holds :
      (t : Moment) (c : Client) (room : Text) (b : Bool) (s : Server D)
      → Holds s
      → lookup c.id s.objects ≡ some c
      → Holds (note_typing p t c room b s)
  unfolding in_room
  note_typing-Holds t c room true s w e =
      put_client-Holds c (record c { is_typing = insert room true c.is_typing }) s w e (λ r h. h)
  note_typing-Holds t c room false s w e =
      put_client-Holds c (record c { is_typing = insert room false c.is_typing }) s w e (λ r h. h)

  pub handle_typing-Holds :
      (t : Moment) (c : Client) (msg : Incoming) (s : Server D)
      → Holds s
      → lookup c.id s.objects ≡ some c
      → Holds (handle_typing p t c msg s)
  unfolding handle_typing
  handle_typing-Holds t c msg s w e =
      either-Holds (in_room msg.room_id c) _ _ (parsed (p.json.parse_typing msg.payload)) w
    where
      parsed : (o : Option TypingPayload) → Holds (typing_parsed p t c msg o s)
      parsed none = w
      parsed (some payload) =
          broadcast-Holds p msg.room_id _ c.id _
            (note_typing-Holds t c msg.room_id payload.is_typing s w e)

  pub handle_read_receipt-Holds :
      (t : Moment) (c : Client) (msg : Incoming) (s : Server D)
      → Holds s
      → Holds (handle_read_receipt p t c msg s)
  unfolding handle_read_receipt
  handle_read_receipt-Holds t c msg s w =
      either-Holds (in_room msg.room_id c) _ _ (parsed (p.json.parse_receipt msg.payload))
        (not_in_room-Holds t c s w)
    where
      saved :
          (payload : ReadReceiptPayload) (a : Bool × D)
          → Holds (receipt_saved p t c msg payload a s)
      saved payload (true, db) = broadcast-Holds p msg.room_id _ c.id (record s { db = db }) w
      saved payload (false, db) = send_failure-Holds p t.now c.id 500 _ (record s { db = db }) w

      parsed : (o : Option ReadReceiptPayload) → Holds (receipt_parsed p t c msg o s)
      parsed none = invalid_payload-Holds t c s w
      parsed (some payload) = saved payload _

  pub handle_file_share-Holds :
      (t : Moment) (c : Client) (msg : Incoming) (s : Server D)
      → Holds s
      → Holds (handle_file_share p t c msg s)
  unfolding handle_file_share
  handle_file_share-Holds t c msg s w =
      either-Holds (in_room msg.room_id c) _ _ (parsed (p.json.parse_file msg.payload))
        (not_in_room-Holds t c s w)
    where
      parsed : (o : Option FileSharePayload) → Holds (file_parsed p t c msg o s)
      parsed none = invalid_payload-Holds t c s w
      parsed (some payload) =
          either-Holds (ltz (pos max_file_size) payload.file_size) _ _
            (send_error-Holds p t.now c.id 413 _ _ s w)
            (announce-Holds t c msg.room_id _ [] _ _ s w)

  pub handle_media_share-Holds :
      (t : Moment) (c : Client) (msg : Incoming) (s : Server D)
      → Holds s
      → Holds (handle_media_share p t c msg s)
  unfolding handle_media_share
  handle_media_share-Holds t c msg s w =
      either-Holds (in_room msg.room_id c) _ _ (parsed (p.json.parse_media msg.payload))
        (not_in_room-Holds t c s w)
    where
      parsed : (o : Option MediaSharePayload) → Holds (media_parsed p t c msg o s)
      parsed none = invalid_payload-Holds t c s w
      parsed (some payload) = announce-Holds t c msg.room_id _ [] _ _ s w

  pub if_in_room-Holds :
      (t : Moment) (c : Client) (msg : Incoming) (o : Option Payload) (s : Server D)
      → Holds s
      → Holds (if_in_room p t c msg o s)
  if_in_room-Holds t c msg o s w =
      either-Holds (in_room msg.room_id c) _ _ (parsed o) (not_in_room-Holds t c s w)
    where
      parsed : (o : Option Payload) → Holds (relay p t c msg o s)
      parsed none = invalid_payload-Holds t c s w
      parsed (some payload) = broadcast-Holds p msg.room_id _ c.id s w
