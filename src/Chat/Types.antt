-- ===== src/Chat/Types.antt =====
-- chat/types.go: messages and their payloads. Times are in nanoseconds; a value of interface{} is
-- the JSON text that json.Marshal makes of it.
use sio.Base.{ℕ, ℤ, Bool, List}
use sio.Base.Text.{Text, codes}
use sio.Database.{DbMessage}

-- The message types, with "history", which only the server uses, and any other string.
pub data MessageType : Type 0 where
  join_room leave_room message thread_reply typing read_receipt : MessageType
  user_joined user_left typing_start typing_stop acknowledgment error : MessageType
  file_share media_share call_invite call_answer call_end webrtc_signal : MessageType
  screen_share recording_start recording_stop history : MessageType
  other : Text → MessageType

-- `string(t)`
unfoldable pub type_name : MessageType → Text
type_name MessageType.join_room = codes "join_room"
type_name MessageType.leave_room = codes "leave_room"
type_name MessageType.message = codes "message"
type_name MessageType.thread_reply = codes "thread_reply"
type_name MessageType.typing = codes "typing"
type_name MessageType.read_receipt = codes "read_receipt"
type_name MessageType.user_joined = codes "user_joined"
type_name MessageType.user_left = codes "user_left"
type_name MessageType.typing_start = codes "typing_start"
type_name MessageType.typing_stop = codes "typing_stop"
type_name MessageType.acknowledgment = codes "ack"
type_name MessageType.error = codes "error"
type_name MessageType.file_share = codes "file_share"
type_name MessageType.media_share = codes "media_share"
type_name MessageType.call_invite = codes "call_invite"
type_name MessageType.call_answer = codes "call_answer"
type_name MessageType.call_end = codes "call_end"
type_name MessageType.webrtc_signal = codes "webrtc_signal"
type_name MessageType.screen_share = codes "screen_share"
type_name MessageType.recording_start = codes "recording_start"
type_name MessageType.recording_stop = codes "recording_stop"
type_name MessageType.history = codes "history"
type_name (MessageType.other t) = t

abbrev pub public_room : Text
public_room = codes "public"

abbrev pub group_room : Text
group_room = codes "group"

abbrev pub dm_room : Text
dm_room = codes "dm"

abbrev pub status_sent : Text
status_sent = codes "sent"

abbrev pub status_delivered : Text
status_delivered = codes "delivered"

pub record MessagePayload : Type 0 where
  pub content : Text
  pub user_id : Text
  pub username : Text
  pub message_id : Text

pub record ThreadReplyPayload : Type 0 where
  pub content : Text
  pub user_id : Text
  pub username : Text
  pub message_id : Text
  pub parent_message_id : Text

pub record TypingPayload : Type 0 where
  pub user_id : Text
  pub username : Text
  pub is_typing : Bool

pub record ReadReceiptPayload : Type 0 where
  pub user_id : Text
  pub message_id : Text
  pub read_at : ℕ

pub record UserPresencePayload : Type 0 where
  pub user_id : Text
  pub username : Text
  pub status : Text

pub record AckPayload : Type 0 where
  pub message_id : Text
  pub status : Text

pub record ErrorPayload : Type 0 where
  pub code : ℕ
  pub message : Text
  pub details : Text

pub record FileSharePayload : Type 0 where
  pub message_id : Text
  pub user_id : Text
  pub username : Text
  pub file_name : Text
  pub file_size : ℤ
  pub file_type : Text
  pub file_data : Text
  pub file_url : Text
  pub room_id : Text

pub record MediaSharePayload : Type 0 where
  pub media_type : Text
  pub media_data : Text
  pub duration : ℤ
  pub thumbnail : Text
  pub user_id : Text
  pub username : Text
  pub message_id : Text
  pub room_id : Text
  pub file_url : Text

pub record CallInvitePayload : Type 0 where
  pub user_id : Text
  pub username : Text
  pub call_type : Text
  pub room_id : Text

pub record CallAnswerPayload : Type 0 where
  pub user_id : Text
  pub username : Text
  pub call_id : Text
  pub accepted : Bool

pub record CallEndPayload : Type 0 where
  pub user_id : Text
  pub username : Text
  pub call_id : Text
  pub reason : Text

pub record WebRtcSignalPayload : Type 0 where
  pub user_id : Text
  pub username : Text
  pub signal : Text
  pub signal_type : Text

pub record ScreenSharePayload : Type 0 where
  pub user_id : Text
  pub username : Text
  pub is_sharing : Bool
  pub stream_id : Text

pub record RecordingPayload : Type 0 where
  pub user_id : Text
  pub username : Text
  pub is_recording : Bool
  pub recording_id : Text

-- What stands in the field Payload of a message that the server writes: a payload struct, or what
-- the client sent.
pub data Payload : Type 0 where
  raw : Text → Payload
  text : MessagePayload → Payload
  reply : ThreadReplyPayload → Payload
  types : TypingPayload → Payload
  receipt : ReadReceiptPayload → Payload
  presence : UserPresencePayload → Payload
  ack : AckPayload → Payload
  failure : ErrorPayload → Payload
  file : FileSharePayload → Payload
  media : MediaSharePayload → Payload
  invite : CallInvitePayload → Payload
  answer : CallAnswerPayload → Payload
  ending : CallEndPayload → Payload
  signal : WebRtcSignalPayload → Payload
  screen : ScreenSharePayload → Payload
  recording : RecordingPayload → Payload
  messages : List DbMessage → Payload

pub record ChatMessage : Type 0 where
  pub kind : MessageType
  pub room_id : Text
  pub message_id : Text
  pub payload : Payload
  pub timestamp : ℕ

-- A message as it comes in: json.Unmarshal into a ChatMessage, whose payload is still raw. The
-- timestamp is set by the server.
pub record Incoming : Type 0 where
  pub kind : MessageType
  pub room_id : Text
  pub message_id : Text
  pub payload : Text

-- Requests, WindowSize, LastReset, CurrentUsed.
pub record RateLimit : Type 0 where
  pub requests : ℕ
  pub window_size : ℕ
  pub last_reset : ℕ
  pub current_used : ℕ

-- The limits that the server reads. An absent CheckOrigin list is the empty one.
pub record SecurityConfig : Type 0 where
  pub max_message_length : ℕ
  pub allowed_origins : List Text
  pub rate_limit_per_socket : RateLimit
