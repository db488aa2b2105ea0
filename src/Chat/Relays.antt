-- ===== src/Chat/Relays.antt =====
-- chat/server.go: the handlers that pass a message on to the room's other clients.
use sio.Base.{true, false, if◌then◌else◌, Option, none, some}
use sio.Chat.Types.{
  Incoming, Payload, CallInvitePayload, CallAnswerPayload, CallEndPayload, WebRtcSignalPayload,
  ScreenSharePayload, RecordingPayload, invite, answer, ending, signal, screen, recording,
}
use sio.Chat.Platform.{Platform}
use sio.Chat.State.{Client, Server, in_room, broadcast_to_room}
use sio.Chat.Handlers.{Moment, not_in_room, invalid_payload, outgoing}

abbrev pub stamp : {A : Type 0} → (A → Payload) → Option A → Option Payload
stamp f none = none
stamp f (some a) = some (f a)

module _ {D : Type 0} (p : Platform D) where
  -- The part that the handlers share, word for word, with the payload that each has stamped.
  abbrev pub relay : Moment → Client → Incoming → Option Payload → Server D → Server D
  relay t c msg none s = invalid_payload p t c s
  relay t c msg (some payload) s =
      broadcast_to_room p msg.room_id (outgoing t msg msg.message_id payload) c.id s

  abbrev pub if_in_room : Moment → Client → Incoming → Option Payload → Server D → Server D
  if_in_room t c msg payload s =
      if in_room msg.room_id c then relay t c msg payload s else not_in_room p t c s

  unfoldable pub handle_call_invite : Moment → Client → Incoming → Server D → Server D
  handle_call_invite t c msg s =
      if_in_room t c msg
        (stamp
          (λ (a : CallInvitePayload).
            invite (record a { user_id = c.user_id; username = c.username; room_id = msg.room_id }))
          (p.json.parse_invite msg.payload))
        s

  unfoldable pub handle_call_answer : Moment → Client → Incoming → Server D → Server D
  handle_call_answer t c msg s =
      if_in_room t c msg
        (stamp
          (λ (a : CallAnswerPayload).
            answer (record a { user_id = c.user_id; username = c.username }))
          (p.json.parse_answer msg.payload))
        s

  unfoldable pub handle_call_end : Moment → Client → Incoming → Server D → Server D
  handle_call_end t c msg s =
      if_in_room t c msg
        (stamp
          (λ (a : CallEndPayload). ending (record a { user_id = c.user_id; username = c.username }))
          (p.json.parse_end msg.payload))
        s

  unfoldable pub handle_webrtc_signal : Moment → Client → Incoming → Server D → Server D
  handle_webrtc_signal t c msg s =
      if_in_room t c msg
        (stamp
          (λ (a : WebRtcSignalPayload).
            signal (record a { user_id = c.user_id; username = c.username }))
          (p.json.parse_signal msg.payload))
        s

  unfoldable pub handle_screen_share : Moment → Client → Incoming → Server D → Server D
  handle_screen_share t c msg s =
      if_in_room t c msg
        (stamp
          (λ (a : ScreenSharePayload).
            screen (record a { user_id = c.user_id; username = c.username }))
          (p.json.parse_screen msg.payload))
        s

  unfoldable pub handle_recording_start : Moment → Client → Incoming → Server D → Server D
  handle_recording_start t c msg s =
      if_in_room t c msg
        (stamp
          (λ (a : RecordingPayload).
            recording
              (record a { user_id = c.user_id; username = c.username; is_recording = true }))
          (p.json.parse_recording msg.payload))
        s

  unfoldable pub handle_recording_stop : Moment → Client → Incoming → Server D → Server D
  handle_recording_stop t c msg s =
      if_in_room t c msg
        (stamp
          (λ (a : RecordingPayload).
            recording
              (record a { user_id = c.user_id; username = c.username; is_recording = false }))
          (p.json.parse_recording msg.payload))
        s
