-- ===== src/Chat/Shares.antt =====
-- chat/server.go: shared files and recordings, by message and by upload.
use sio.Base.{ℕ, pos, Bool, if◌then◌else◌, List, [], ◌++◌, Option, none, some, ltz, length, ◌*◌}
use sio.Base.Text.{Text, codes, text_eq, text_key}
use sio.Database.{DbMessage}
use sio.Chat.Types.{
  ChatMessage, Incoming, FileSharePayload, MediaSharePayload, type_name, file_share, media_share,
  file, media,
}
use sio.Chat.Platform.{Platform}
use sio.Chat.State.{
  Client, Server, in_room, send_message, send_error, send_failure, broadcast_to_room,
}
use sio.Chat.Handlers.{
  Moment, or_fresh, plain_message, not_in_room, invalid_payload, outgoing, sent_ack, announce,
}

-- 10MB
abbrev pub max_file_size : ℕ
max_file_size = 10 * 1024 * 1024

module _ {D : Type 0} (p : Platform D) where
  abbrev pub file_parsed :
      Moment → Client → Incoming → Option FileSharePayload → Server D → Server D
  file_parsed t c msg none s = invalid_payload p t c s
  file_parsed t c msg (some payload) s =
      let id = or_fresh t payload.message_id in
      let stamped : FileSharePayload = record payload {
        message_id = id;
        user_id = c.user_id;
        username = c.username;
      } in
      let plain =
        plain_message id msg.room_id c.user_id (codes "Shared file: " ++ payload.file_name) t.now
          (type_name file_share) in
      let saved =
        announce p t c msg.room_id (outgoing t msg id (file stamped)) []
          (codes "Failed to save file")
          (p.db.save_message
            (record plain {
              file_data = some payload.file_data;
              file_name = some payload.file_name;
              file_size = some payload.file_size;
              file_type = some payload.file_type;
            })
            s.db)
          s in
      if ltz (pos max_file_size) payload.file_size
      then send_error p t.now c.id 413 (codes "File too large")
          (codes "File size exceeds 10MB limit") s
      else saved

  unfoldable pub handle_file_share : Moment → Client → Incoming → Server D → Server D
  handle_file_share t c msg s =
      if in_room msg.room_id c
      then file_parsed t c msg (p.json.parse_file msg.payload) s
      else not_in_room p t c s

  abbrev pub media_parsed :
      Moment → Client → Incoming → Option MediaSharePayload → Server D → Server D
  media_parsed t c msg none s = invalid_payload p t c s
  media_parsed t c msg (some payload) s =
      let id = or_fresh t payload.message_id in
      let stamped : MediaSharePayload = record payload {
        message_id = id;
        user_id = c.user_id;
        username = c.username;
      } in
      let content =
        codes "Shared "
        ++ payload.media_type
        ++ codes " recording ("
        ++ p.decimal payload.duration
        ++ codes "s)" in
      let plain = plain_message id msg.room_id c.user_id content t.now (type_name media_share) in
      announce p t c msg.room_id (outgoing t msg id (media stamped)) []
        (codes "Failed to save media")
        (p.db.save_message
          (record plain {
            media_data = some payload.media_data;
            media_type = some payload.media_type;
            duration = some payload.duration;
          })
          s.db)
        s

  unfoldable pub handle_media_share : Moment → Client → Incoming → Server D → Server D
  handle_media_share t c msg s =
      if in_room msg.room_id c
      then media_parsed t c msg (p.json.parse_media msg.payload) s
      else not_in_room p t c s

  -- What both uploads do once the file is on the disk: the error of SaveMessage is not looked at.
  abbrev pub share_upload : Moment → Client → Text → DbMessage → ChatMessage → Server D → Server D
  share_upload t c room stored msg s =
      send_message p c.id (sent_ack t room t.fresh_id)
        (broadcast_to_room p room msg [] (record s { db = (p.db.save_message stored s.db).1 }))

  -- `saved` is whether the file system took the file, `ext` what filepath.Ext finds.
  unfoldable pub handle_binary_message :
      Moment → Bool → Text → Client → List ℕ → Text → Text → Text → Server D → Server D
  handle_binary_message t saved ext c bytes file_type file_name room s =
      let url = codes "/files/" ++ (t.fresh_id ++ ext) in
      let plain =
        plain_message t.fresh_id room c.user_id (codes "[File uploaded]") t.now
          (type_name file_share) in
      if saved
      then share_upload t c room
          (record plain {
            file_name = some file_name;
            file_size = some (pos (length bytes));
            file_type = some file_type;
            file_url = some url;
          })
          (record {
            kind = file_share;
            room_id = room;
            message_id = [];
            payload = file (record {
              message_id = t.fresh_id;
              user_id = c.user_id;
              username = c.username;
              file_name = file_name;
              file_size = pos (length bytes);
              file_type = file_type;
              file_data = codes "null";
              file_url = url;
              room_id = room;
            });
            timestamp = t.now;
          })
          s
      else send_failure p t.now c.id 500 (codes "Failed to save file") s

  unfoldable pub extension_of : Text → Text
  extension_of media_type =
      if text_eq media_type (codes "audio")
      then codes ".webm"
      else if text_eq media_type (codes "video")
      then codes ".webm"
      else if text_eq media_type (codes "screen")
      then codes ".webm"
      else []

  unfoldable pub handle_binary_media_message :
      Moment → Bool → Client → List ℕ → MediaSharePayload → Server D → Server D
  handle_binary_media_message t saved c bytes meta s =
      let url = codes "/files/" ++ (t.fresh_id ++ extension_of meta.media_type) in
      let plain =
        plain_message t.fresh_id meta.room_id c.user_id (codes "[Media uploaded]") t.now
          (type_name media_share) in
      if saved
      then share_upload t c meta.room_id
          (record plain { media_type = some meta.media_type; file_url = some url })
          (record {
            kind = media_share;
            room_id = meta.room_id;
            message_id = [];
            payload = media (record {
              media_type = meta.media_type;
              media_data = [];
              duration = pos 0;
              thumbnail = [];
              user_id = c.user_id;
              username = c.username;
              message_id = t.fresh_id;
              room_id = meta.room_id;
              file_url = url;
            });
            timestamp = t.now;
          })
          s
      else send_failure p t.now c.id 500 (codes "Failed to save media") s
