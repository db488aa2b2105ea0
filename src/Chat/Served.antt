-- ===== src/Chat/Served.antt =====
-- A message of a client, from the bytes on, keeps the invariant.
use sio.Base.{
  ℕ, ◌≡◌, ◌==◌, refl, ap, sym, ◌∙◌, Bool, true, false, if-true, List, [], Option, none, some,
}
use mathlib.Core.Path.{subst}
use sio.Chat.Sound.{IsSound}
use sio.Base.Text.{text_eq, text_eq_iff, text_key}
use sio.Base.Dict.{lookup, lookup-insert}
use sio.Websocket.Types.{opcode_text, opcode_binary}
use sio.Chat.Types.{
  MessageType, Incoming, FileSharePayload, MediaSharePayload, join_room, leave_room, message,
  thread_reply, typing, read_receipt, file_share, media_share, call_invite, call_answer, call_end,
  webrtc_signal, screen_share, recording_start, recording_stop,
}
use sio.Chat.Platform.{Platform}
use sio.Chat.State.{Client, Server, in_room}
use sio.Chat.Limits.{check_rate_limit, validate_message}
use sio.Chat.Handlers.{Moment}
use sio.Chat.Shares.{handle_binary_message, handle_binary_media_message}
use sio.Chat.Relays.{
  handle_call_invite, handle_call_answer, handle_call_end, handle_webrtc_signal,
  handle_screen_share, handle_recording_start, handle_recording_stop,
}
use sio.Chat.Service.{
  Disk, route, handle_decoded, handle_limited, handle_message, note_upload, note_kind, note_file,
  note_media, upload, on_message,
}
use sio.Chat.Quiet.{
  Holds, put_client-Holds, send_message-Holds, broadcast-Holds, send_error-Holds,
  send_failure-Holds,
}
use sio.Chat.Membership.{handle_join_room-Holds}
use sio.Chat.Parting.{handle_leave_room-Holds}
use sio.Chat.Kept.{
  either-Holds, handle_chat_message-Holds, handle_thread_reply-Holds, handle_typing-Holds,
  handle_read_receipt-Holds, handle_file_share-Holds, handle_media_share-Holds, if_in_room-Holds,
}

module _ {D : Type 0} (p : Platform D) where
  pub route-Holds :
      (t : Moment) (c : Client) (msg : Incoming) (kind : MessageType) (s : Server D)
      → Holds s
      → lookup c.id s.objects ≡ some c
      → Holds (route p t c msg kind s)
  unfolding route handle_call_invite handle_call_answer handle_call_end handle_webrtc_signal
      handle_screen_share handle_recording_start handle_recording_stop
  route-Holds t c msg join_room s w e = handle_join_room-Holds p t.now c msg s w e
  route-Holds t c msg leave_room s w e = handle_leave_room-Holds p t.now c msg s w e
  route-Holds t c msg message s w e = handle_chat_message-Holds p t c msg s w
  route-Holds t c msg thread_reply s w e = handle_thread_reply-Holds p t c msg s w
  route-Holds t c msg typing s w e = handle_typing-Holds p t c msg s w e
  route-Holds t c msg read_receipt s w e = handle_read_receipt-Holds p t c msg s w
  route-Holds t c msg file_share s w e = handle_file_share-Holds p t c msg s w
  route-Holds t c msg media_share s w e = handle_media_share-Holds p t c msg s w
  route-Holds t c msg call_invite s w e = if_in_room-Holds p t c msg _ s w
  route-Holds t c msg call_answer s w e = if_in_room-Holds p t c msg _ s w
  route-Holds t c msg call_end s w e = if_in_room-Holds p t c msg _ s w
  route-Holds t c msg webrtc_signal s w e = if_in_room-Holds p t c msg _ s w
  route-Holds t c msg screen_share s w e = if_in_room-Holds p t c msg _ s w
  route-Holds t c msg recording_start s w e = if_in_room-Holds p t c msg _ s w
  route-Holds t c msg recording_stop s w e = if_in_room-Holds p t c msg _ s w
  route-Holds t c msg kind s w e = send_error-Holds p t.now c.id 400 _ _ s w

  handle_decoded-Holds :
      (t : Moment) (c : Client) (o : Option Incoming) (s : Server D)
      → Holds s
      → lookup c.id s.objects ≡ some c
      → Holds (handle_decoded p t c o s)
  handle_decoded-Holds t c none s w e = send_failure-Holds p t.now c.id 400 _ s w
  handle_decoded-Holds t c (some msg) s w e =
      either-Holds (validate_message p msg) _ _ (route-Holds t c msg msg.kind s w e)
        (send_failure-Holds p t.now c.id 400 _ s w)

  handle_limited-Holds :
      (t : Moment) (c : Client) (bytes : List ℕ) (b : Bool) (s : Server D)
      → Holds s
      → lookup c.id s.objects ≡ some c
      → Holds (handle_limited p t c bytes (b, s))
  handle_limited-Holds t c bytes false s w e = send_error-Holds p t.now c.id 429 _ _ s w
  handle_limited-Holds t c bytes true s w e = handle_decoded-Holds t c (p.json.decode bytes) s w e

  pub handle_message-Holds :
      (t : Moment) (c : Client) (bytes : List ℕ) (s : Server D)
      → Holds s
      → lookup c.id s.objects ≡ some c
      → Holds (handle_message p t c bytes s)
  unfolding handle_message check_rate_limit in_room text_eq
  handle_message-Holds t c bytes s w e =
      let seen : Client = record c { last_seen = t.now } in
      handle_limited-Holds t seen bytes _ _ (put_client-Holds c seen s w e (λ room h. h)) (
        lookup-insert c.id c.id seen s.objects
        ∙ if-true (text_eq c.id c.id) (some seen) (lookup c.id s.objects)
            ((text_eq_iff c.id c.id).1 refl))

  -- The state that a text message leaves for the upload behind it.
  noted :
      (c : Client) (o : Option Incoming) (s : Server D)
      → ((note_upload p c o s).objects ≡ s.objects) × ((note_upload p c o s).rooms ≡ s.rooms)
  unfolding note_upload
  noted c none s = (refl, refl)
  noted c (some msg) s = by_kind msg.kind
    where
      a_file :
          (o : Option FileSharePayload)
          → ((note_file p c o s).objects ≡ s.objects) × ((note_file p c o s).rooms ≡ s.rooms)
      a_file none = (refl, refl)
      a_file (some meta) = (refl, refl)

      a_media :
          (o : Option MediaSharePayload)
          → ((note_media p c o s).objects ≡ s.objects) × ((note_media p c o s).rooms ≡ s.rooms)
      a_media none = (refl, refl)
      a_media (some meta) = (refl, refl)

      by_kind :
          (kind : MessageType)
          → ((note_kind p c msg kind s).objects ≡ s.objects)
            × ((note_kind p c msg kind s).rooms ≡ s.rooms)
      by_kind file_share = a_file (p.json.parse_file msg.payload)
      by_kind media_share = a_media (p.json.parse_media msg.payload)
      by_kind kind = (refl, refl)

  pub moved-Holds :
      (s s' : Server D) → (s'.objects ≡ s.objects) × (s'.rooms ≡ s.rooms) → Holds s → Holds s'
  moved-Holds s s' (os, rs) w =
      subst (λ o. IsSound o s'.rooms) (sym os) (subst (λ r. IsSound s.objects r) (sym rs) w)

  upload-Holds :
      (t : Moment) (disk : Disk) (c : Client) (bytes : List ℕ) (f : Option FileSharePayload)
      (m : Option MediaSharePayload) (s : Server D)
      → Holds s
      → Holds (upload p t disk c bytes f m s)
  unfolding handle_binary_message handle_binary_media_message
  upload-Holds t disk c bytes (some meta) m s w =
      either-Holds disk.saved _ _
        (send_message-Holds p c.id _ _ (broadcast-Holds p meta.room_id _ [] _ w))
        (send_failure-Holds p t.now c.id 500 _ s w)
  upload-Holds t disk c bytes none (some meta) s w =
      either-Holds disk.saved _ _
        (send_message-Holds p c.id _ _ (broadcast-Holds p meta.room_id _ [] _ w))
        (send_failure-Holds p t.now c.id 500 _ s w)
  upload-Holds t disk c bytes none none s w = send_error-Holds p t.now c.id 400 _ _ s w

  pub on_message-Holds :
      (t : Moment) (disk : Disk) (c : Client) (kind : ℕ) (bytes : List ℕ) (s : Server D)
      → Holds s
      → lookup c.id s.objects ≡ some c
      → Holds (on_message p t disk c kind bytes s)
  unfolding on_message
  on_message-Holds t disk c kind bytes s w e =
      let same = noted c (p.json.decode bytes) s in
      either-Holds (kind == opcode_text) _ _
        (handle_message-Holds t c bytes (note_upload p c (p.json.decode bytes) s)
          (moved-Holds s (note_upload p c (p.json.decode bytes) s) same w)
          (ap (lookup c.id) same.0 ∙ e))
        (either-Holds (kind == opcode_binary) _ _ (upload-Holds t disk c bytes _ _ _ w) w)
