-- ===== src/Chat/Platform.antt =====
-- What the chat server stands on: the interface Database of chat/database.go, encoding/json, and
-- the network.
use sio.Base.{ℕ, ℤ, Bool, true, List, Option, some}
use sio.Base.Text.{Text}
use sio.Database.{
  DbMessage, DbRoom, DbRoomMember, DbReadReceipt, InMemoryDb, save_message, get_message,
  get_messages, create_room, get_room, add_room_member, remove_room_member, is_user_in_room,
  save_read_receipt, get_thread_messages, get_user_rooms, delete_room,
}
use sio.Websocket.Types.{Env}
use sio.Chat.Types.{
  Incoming, ChatMessage, MessagePayload, ThreadReplyPayload, TypingPayload, ReadReceiptPayload,
  FileSharePayload, MediaSharePayload, CallInvitePayload, CallAnswerPayload, CallEndPayload,
  WebRtcSignalPayload, ScreenSharePayload, RecordingPayload, SecurityConfig,
}

-- The operations that the server and its HTTP side call. A Boolean is whether a write returned no error; a read
-- that returned one is none.
pub record Database (D : Type 0) : Type 0 where
  pub save_message : DbMessage → D → Bool × D
  pub get_messages : Text → ℕ → ℕ → D → Option (List DbMessage)
  pub get_message : Text → D → Option DbMessage
  pub create_room : DbRoom → D → Bool × D
  pub get_room : Text → D → Option DbRoom
  pub add_room_member : DbRoomMember → D → Bool × D
  pub remove_room_member : Text → Text → D → Bool × D
  pub is_user_in_room : Text → Text → D → Option Bool
  pub save_read_receipt : DbReadReceipt → D → Bool × D
  pub get_thread_messages : Text → D → Option (List DbMessage)
  pub get_user_rooms : Text → D → Option (List DbRoom)
  pub delete_room : Text → D → Bool × D

-- InMemoryDB as a Database: no operation fails but the two reads of a single value.
abbrev pub in_memory : Database InMemoryDb
in_memory = record {
  save_message = λ m db. (true, save_message m db);
  get_messages = λ room limit offset db. some (get_messages room limit offset db);
  get_message = get_message;
  create_room = λ r db. (true, create_room r db);
  get_room = get_room;
  add_room_member = λ m db. (true, add_room_member m db);
  remove_room_member = λ room user db. (true, remove_room_member room user db);
  is_user_in_room = λ room user db. some (is_user_in_room room user db);
  save_read_receipt = λ r db. (true, save_read_receipt r db);
  get_thread_messages = λ parent db. some (get_thread_messages parent db);
  get_user_rooms = λ user db. some (get_user_rooms user db);
  delete_room = λ room db. (true, delete_room room db);
}

-- encoding/json. `content` is what
-- Sprintf("%v") makes of the payload's "content" (empty where there is none), and each `parse`
-- what `parsePayload` finds for a struct. None is an error.
pub record Json : Type 0 where
  pub decode : List ℕ → Option Incoming
  pub encode : ChatMessage → Option (List ℕ)
  pub content : Text → Text
  pub parse_message : Text → Option MessagePayload
  pub parse_reply : Text → Option ThreadReplyPayload
  pub parse_typing : Text → Option TypingPayload
  pub parse_receipt : Text → Option ReadReceiptPayload
  pub parse_file : Text → Option FileSharePayload
  pub parse_media : Text → Option MediaSharePayload
  pub parse_invite : Text → Option CallInvitePayload
  pub parse_answer : Text → Option CallAnswerPayload
  pub parse_end : Text → Option CallEndPayload
  pub parse_signal : Text → Option WebRtcSignalPayload
  pub parse_screen : Text → Option ScreenSharePayload
  pub parse_recording : Text → Option RecordingPayload

-- With the configuration that does not change, `%d` of fmt, and the text of the error behind an
-- error message that is sent at a time.
pub record Platform (D : Type 0) : Type 0 where
  pub db : Database D
  pub json : Json
  pub net : Env
  pub decimal : ℤ → Text
  pub security : SecurityConfig
  pub reason : ℕ → Text → Text
