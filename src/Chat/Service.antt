-- ===== src/Chat/Service.antt =====
-- chat/server.go: a message of a client from the bytes on, `handleMessage`, and the handler that
-- a connection calls for its messages.
use sio.Base.{ℕ, ◌==◌, Bool, true, false, if◌then◌else◌, List, [], ◌∷◌, Option, none, some}
use sio.Base.Text.{Text, codes, text_eq, text_key}
use sio.Base.Dict.{lookup, insert, erase}
use sio.Websocket.Types.{opcode_text, opcode_binary}
use sio.Chat.Types.{
  MessageType, Incoming, FileSharePayload, MediaSharePayload, type_name, join_room, leave_room,
  message, thread_reply, typing, read_receipt, file_share, media_share, call_invite, call_answer,
  call_end, webrtc_signal, screen_share, recording_start, recording_stop,
}
use sio.Chat.Platform.{Platform}
use sio.Chat.State.{Client, Server, put_client, send_error, send_failure}
use sio.Chat.Rooms.{handle_join_room, handle_leave_room}
use sio.Chat.Limits.{check_rate_limit, validate_message}
use sio.Chat.Handlers.{
  Moment, handle_chat_message, handle_thread_reply, handle_typing, handle_read_receipt,
}
use sio.Chat.Shares.{
  handle_file_share, handle_media_share, handle_binary_message, handle_binary_media_message,
}
use sio.Chat.Relays.{
  handle_call_invite, handle_call_answer, handle_call_end, handle_webrtc_signal,
  handle_screen_share, handle_recording_start, handle_recording_stop,
}

-- What the file system answers an upload: whether it took the file, and the extension.
pub record Disk : Type 0 where
  pub saved : Bool
  pub ext : Text → Text

module _ {D : Type 0} (p : Platform D) where
  -- The switch on the type.
  unfoldable pub route : Moment → Client → Incoming → MessageType → Server D → Server D
  route t c msg join_room s = handle_join_room p t.now c msg s
  route t c msg leave_room s = handle_leave_room p t.now c msg s
  route t c msg message s = handle_chat_message p t c msg s
  route t c msg thread_reply s = handle_thread_reply p t c msg s
  route t c msg typing s = handle_typing p t c msg s
  route t c msg read_receipt s = handle_read_receipt p t c msg s
  route t c msg file_share s = handle_file_share p t c msg s
  route t c msg media_share s = handle_media_share p t c msg s
  route t c msg call_invite s = handle_call_invite p t c msg s
  route t c msg call_answer s = handle_call_answer p t c msg s
  route t c msg call_end s = handle_call_end p t c msg s
  route t c msg webrtc_signal s = handle_webrtc_signal p t c msg s
  route t c msg screen_share s = handle_screen_share p t c msg s
  route t c msg recording_start s = handle_recording_start p t c msg s
  route t c msg recording_stop s = handle_recording_stop p t c msg s
  route t c msg kind s =
      send_error p t.now c.id 400 (codes "Unknown message type") (type_name kind) s

  abbrev pub handle_decoded : Moment → Client → Option Incoming → Server D → Server D
  handle_decoded t c none s = send_failure p t.now c.id 400 (codes "Invalid message format") s
  handle_decoded t c (some msg) s =
      if validate_message p msg
      then route t c msg msg.kind s
      else send_failure p t.now c.id 400 (codes "Message validation failed") s

  abbrev pub handle_limited : Moment → Client → List ℕ → Bool × Server D → Server D
  handle_limited t c bytes (false, s) =
      send_error p t.now c.id 429 (codes "Rate limit exceeded") [] s
  handle_limited t c bytes (true, s) = handle_decoded t c (p.json.decode bytes) s

  unfoldable pub handle_message : Moment → Client → List ℕ → Server D → Server D
  handle_message t c bytes s =
      let seen : Client = record c { last_seen = t.now } in
      handle_limited t seen bytes
        (check_rate_limit p.security.rate_limit_per_socket t.now c.id (put_client seen s))

  -- A room for an upload that names none: some room of the client, the first of the map here.
  abbrev pub some_room : Text → Client → Text
  some_room room c =
      if text_eq room [] then elim c.rooms [ [] ↦ [] | (id, b) ∷ rooms ↦ id ] else room

  abbrev pub note_file : Client → Option FileSharePayload → Server D → Server D
  note_file c none s = s
  note_file c (some meta) s = record s {
    pending_file_meta =
        insert c.id (record meta { room_id = some_room meta.room_id c }) s.pending_file_meta;
  }

  abbrev pub note_media : Client → Option MediaSharePayload → Server D → Server D
  note_media c none s = s
  note_media c (some meta) s = record s {
    pending_media_meta =
        insert c.id (record meta { room_id = some_room meta.room_id c }) s.pending_media_meta;
  }

  -- What a text message tells of the upload that follows it.
  abbrev pub note_kind : Client → Incoming → MessageType → Server D → Server D
  note_kind c msg file_share s = note_file c (p.json.parse_file msg.payload) s
  note_kind c msg media_share s = note_media c (p.json.parse_media msg.payload) s
  note_kind c msg kind s = s

  unfoldable pub note_upload : Client → Option Incoming → Server D → Server D
  note_upload c none s = s
  note_upload c (some msg) s = note_kind c msg msg.kind s

  abbrev pub upload :
      Moment
      → Disk
      → Client
      → List ℕ
      → Option FileSharePayload
      → Option MediaSharePayload
      → Server D
      → Server D
  upload t disk c bytes (some meta) m s =
      handle_binary_message p t disk.saved (disk.ext meta.file_name) c bytes meta.file_type
        meta.file_name meta.room_id s
  upload t disk c bytes none (some meta) s =
      handle_binary_media_message p t disk.saved c bytes meta s
  upload t disk c bytes none none s =
      send_error p t.now c.id 400 (codes "No file metadata for binary upload")
        (codes "Send metadata before binary data") s

  -- The handler that `handleNewConnectionWithUser` sets for messages: text, binary and others.
  unfoldable pub on_message : Moment → Disk → Client → ℕ → List ℕ → Server D → Server D
  on_message t disk c kind bytes s =
      let cleared = record s {
        pending_file_meta = erase c.id s.pending_file_meta;
        pending_media_meta = erase c.id s.pending_media_meta;
      } in
      if kind == opcode_text
      then handle_message t c bytes (note_upload c (p.json.decode bytes) s)
      else if kind == opcode_binary
      then upload t disk c bytes (lookup c.id s.pending_file_meta)
          (lookup c.id s.pending_media_meta) cleared
      else s
