-- ===== src/Chat/Handlers.antt =====
-- chat/server.go: the handlers of messages that are stored, and of typing.
use sio.Base.{ℕ, Bool, true, false, if◌then◌else◌, [], Option, none, some}
use sio.Base.Text.{Text, codes, text_eq, text_key}
use sio.Base.Dict.{insert, erase}
use sio.Database.{DbMessage, write2, read2}
use sio.Chat.Types.{
  MessageType, ChatMessage, Incoming, Payload, MessagePayload, ThreadReplyPayload, TypingPayload,
  ReadReceiptPayload, type_name, typing_start, typing_stop, acknowledgment, status_sent, text,
  reply, types, receipt, ack,
}
use sio.Chat.Platform.{Platform}
use sio.Chat.State.{
  Client, Server, in_room, put_client, send_message, send_error, send_failure, broadcast_to_room,
}

-- What a handler finds outside: the time, and the name that generateMessageID makes.
pub record Moment : Type 0 where
  pub now : ℕ
  pub fresh_id : Text

abbrev pub or_fresh : Moment → Text → Text
or_fresh t id = if text_eq id [] then t.fresh_id else id

-- A message with nothing in its pointer fields.
abbrev pub plain_message : Text → Text → Text → Text → ℕ → Text → DbMessage
plain_message id room sender content now kind = record {
  id = id;
  message_room = room;
  sender_id = sender;
  content = content;
  timestamp = now;
  parent_message = none;
  message_type = kind;
  file_data = none;
  file_name = none;
  file_size = none;
  file_url = none;
  file_type = none;
  media_data = none;
  media_type = none;
  duration = none;
}

abbrev pub outgoing : Moment → Incoming → Text → Payload → ChatMessage
outgoing t msg id payload = record {
  kind = msg.kind;
  room_id = msg.room_id;
  message_id = id;
  payload = payload;
  timestamp = t.now;
}

abbrev pub sent_ack : Moment → Text → Text → ChatMessage
sent_ack t room id = record {
  kind = acknowledgment;
  room_id = room;
  message_id = id;
  payload = ack (record { message_id = id; status = status_sent });
  timestamp = t.now;
}

module _ {D : Type 0} (p : Platform D) where
  abbrev pub not_in_room : Moment → Client → Server D → Server D
  not_in_room t c s =
      send_error p t.now c.id 403 (codes "Access denied") (codes "You are not in this room") s

  abbrev pub invalid_payload : Moment → Client → Server D → Server D
  invalid_payload t c s = send_failure p t.now c.id 400 (codes "Invalid payload") s

  -- Save, then broadcast to the whole room and acknowledge; or the error of the store.
  abbrev pub announce :
      Moment → Client → Text → ChatMessage → Text → Text → Bool × D → Server D → Server D
  announce t c room msg ack_room failed (true, db) s =
      send_message p c.id (sent_ack t ack_room msg.message_id)
        (broadcast_to_room p room msg [] (record s { db = db }))
  announce t c room msg ack_room failed (false, db) s =
      send_failure p t.now c.id 500 failed (record s { db = db })

  abbrev pub chat : Moment → Client → Incoming → Option MessagePayload → Server D → Server D
  chat t c msg none s = invalid_payload t c s
  chat t c msg (some payload) s =
      let id = or_fresh t payload.message_id in
      let stamped : MessagePayload = record payload {
        message_id = id;
        user_id = c.user_id;
        username = c.username;
      } in
      announce t c msg.room_id (outgoing t msg id (text stamped)) msg.room_id
        (codes "Failed to save message")
        (p.db.save_message
          (plain_message id msg.room_id c.user_id payload.content t.now (type_name msg.kind)) s.db)
        s

  unfoldable pub handle_chat_message : Moment → Client → Incoming → Server D → Server D
  handle_chat_message t c msg s =
      if in_room msg.room_id c
      then chat t c msg (p.json.parse_message msg.payload) s
      else not_in_room t c s

  abbrev pub thread :
      Moment → Client → Incoming → ThreadReplyPayload → Option DbMessage → Server D → Server D
  thread t c msg payload none s = send_failure p t.now c.id 404 (codes "Parent message not found") s
  thread t c msg payload (some parent) s =
      let id = or_fresh t payload.message_id in
      let stamped : ThreadReplyPayload = record payload {
        message_id = id;
        user_id = c.user_id;
        username = c.username;
      } in
      let plain =
        plain_message id msg.room_id c.user_id payload.content t.now (type_name msg.kind) in
      announce t c msg.room_id (outgoing t msg id (reply stamped)) msg.room_id
        (codes "Failed to save message")
        (p.db.save_message (record plain { parent_message = some payload.parent_message_id }) s.db)
        s

  abbrev pub thread_parsed :
      Moment → Client → Incoming → Option ThreadReplyPayload → Server D → Server D
  thread_parsed t c msg none s = invalid_payload t c s
  thread_parsed t c msg (some payload) s =
      thread t c msg payload (p.db.get_message payload.parent_message_id s.db) s

  unfoldable pub handle_thread_reply : Moment → Client → Incoming → Server D → Server D
  handle_thread_reply t c msg s =
      if in_room msg.room_id c
      then thread_parsed t c msg (p.json.parse_reply msg.payload) s
      else not_in_room t c s

  abbrev pub note_typing : Moment → Client → Text → Bool → Server D → Server D
  note_typing t c room true s =
      put_client (record c { is_typing = insert room true c.is_typing })
        (record s { typing_clients = write2 room c.id t.now s.typing_clients })
  note_typing t c room false s =
      put_client (record c { is_typing = insert room false c.is_typing })
        (record s {
          typing_clients = insert room (erase c.id (read2 room s.typing_clients)) s.typing_clients;
        })

  abbrev pub typing_kind : Bool → MessageType
  typing_kind true = typing_start
  typing_kind false = typing_stop

  abbrev pub typing_parsed : Moment → Client → Incoming → Option TypingPayload → Server D → Server D
  typing_parsed t c msg none s = s
  typing_parsed t c msg (some payload) s =
      let stamped : TypingPayload = record payload { user_id = c.user_id; username = c.username } in
      let out : ChatMessage = outgoing t msg msg.message_id (types stamped) in
      broadcast_to_room p msg.room_id (record out { kind = typing_kind payload.is_typing }) c.id
        (note_typing t c msg.room_id payload.is_typing s)

  -- Outside the room, and on a payload that does not parse, it is silent.
  unfoldable pub handle_typing : Moment → Client → Incoming → Server D → Server D
  handle_typing t c msg s =
      if in_room msg.room_id c then typing_parsed t c msg (p.json.parse_typing msg.payload) s else s

  abbrev pub receipt_saved :
      Moment → Client → Incoming → ReadReceiptPayload → Bool × D → Server D → Server D
  receipt_saved t c msg payload (true, db) s =
      let stamped : ReadReceiptPayload = record payload { user_id = c.user_id; read_at = t.now } in
      broadcast_to_room p msg.room_id (outgoing t msg msg.message_id (receipt stamped)) c.id
        (record s { db = db })
  receipt_saved t c msg payload (false, db) s =
      send_failure p t.now c.id 500 (codes "Failed to save read receipt") (record s { db = db })

  abbrev pub receipt_parsed :
      Moment → Client → Incoming → Option ReadReceiptPayload → Server D → Server D
  receipt_parsed t c msg none s = invalid_payload t c s
  receipt_parsed t c msg (some payload) s =
      receipt_saved t c msg payload
        (p.db.save_read_receipt
          (record { message_id = payload.message_id; user_id = c.user_id; read_at = t.now }) s.db)
        s

  unfoldable pub handle_read_receipt : Moment → Client → Incoming → Server D → Server D
  handle_read_receipt t c msg s =
      if in_room msg.room_id c
      then receipt_parsed t c msg (p.json.parse_receipt msg.payload) s
      else not_in_room t c s
