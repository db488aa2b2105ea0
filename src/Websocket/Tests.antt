-- ===== src/Websocket/Tests.antt =====
-- Concrete runs of the WebSocket code, and the theorems at concrete inputs.
use sio.Base.{
  ℕ, ◌+◌, ◌^◌, ◌≤◌, ◌<◌, ◌≡◌, refl, ap, ◌≢◌, inl, true, false, List, [], ◌∷◌, ◌++◌, length, arith,
  pos, ltz,
}
use sio.Base.Text.{codes}
use sio.Websocket.Types.{Config, Conn, Env, Frame, MaskKey, key_bytes, ok, stuck, new_conn}
use sio.Websocket.Frame.{
  read_frame, mask_allowed, is_valid_opcode, frame_bytes, first_byte, header_size, put_length,
  put_uint64, mask_bytes, mask_from, write_frame, compress,
}
use sio.Websocket.Frame.Buffer.{make, set_at, copy_at, on_tail}
use sio.Websocket.Frame.Mask.{IsKey}
use sio.Websocket.Frame.RoundTrip.{IsAccepted, read_frame-frame_bytes}
use sio.Websocket.Frame.Reject.{EndsShort, read_frame-truncated, read_frame-negative_length}
use sio.Websocket.Frame.Inverse.{read_frame_ok}
use sio.Websocket.Message.{read_message, write_message, write_fragmented, write_pong}
use sio.Websocket.Message.Total.{read_message-ne-stuck}
use sio.Websocket.Message.Delivery.{IsLink, read_message-write_message}
use sio.Websocket.Message.Fragments.{read_message-write_fragmented}
use sio.Websocket.Message.Interleaved.{read_message-interleaved}
use sio.Websocket.Lifecycle.{Handlers, handle_connection, set_default_handlers, world}
use sio.Websocket.Lifecycle.Serving.{IsQuiet, handle_connection-ends}
use sio.Websocket.Lifecycle.Ordered.{collector, AreLinks, write_all, handle_connection-write_all}

abbrev rfc_key : MaskKey
rfc_key = record { k0 = 0x37; k1 = 0xfa; k2 = 0x21; k3 = 0x3d }

abbrev env : Env
env = record { random = λ n. rfc_key; deflate = λ d. d }

abbrev limits : Config
limits = record { max_message_size = pos 1000; max_frame_size = pos 100; enable_ping_pong = true }

abbrev client : Conn
unfolding new_conn
client = new_conn limits false false []

abbrev server : Conn
unfolding new_conn
server = new_conn limits false true []

abbrev hello : List ℕ
hello = codes "Hello"

rfc_key-IsKey : IsKey rfc_key
rfc_key-IsKey = record {
  byte0 = omega arith;
  byte1 = omega arith;
  byte2 = omega arith;
  byte3 = omega arith;
}

-- The masked and the unmasked "Hello" of RFC 6455, section 5.7.
masked_hello :
    (write_message env 1 hello client).1.outbox
    ≡ 0x81 ∷ 0x85 ∷ 0x37 ∷ 0xfa ∷ 0x21 ∷ 0x3d ∷ 0x7f ∷ 0x9f ∷ 0x4d ∷ 0x51 ∷ 0x58 ∷ []
unfolding new_conn write_message write_frame frame_bytes first_byte header_size put_length make
    set_at copy_at on_tail mask_bytes mask_from compress
masked_hello = refl

unmasked_hello : (write_message env 1 hello server).1.outbox ≡ 0x81 ∷ 0x05 ∷ hello
unfolding new_conn write_message write_frame frame_bytes first_byte header_size put_length make
    set_at copy_at on_tail compress
unmasked_hello = refl

hello-IsLink :
    (n : ℕ) → ltz (pos 100) (pos n) ≡ false → n < 2 ^ 63 → IsLink env client server 1 n hello
unfolding new_conn mask_allowed
hello-IsLink n fits small = record {
  keys = λ i. rfc_key-IsKey;
  net_open = refl;
  plain = refl;
  role = refl;
  kind = inl refl;
  bytes = omega arith;
  frame_fits = fits;
  message_fits = refl;
  int64 = small;
}

read_message-write_fragmented_example : (write_fragmented env 1 hello 2 client).0 ≡ ok tt
unfolding new_conn
read_message-write_fragmented_example =
    (read_message-write_fragmented env client server 1 2 hello []
      (hello-IsLink 2 refl (omega arith)) (omega arith) (omega arith) refl refl).1

read_message-write_message_example : (write_message env 1 hello client).0 ≡ ok tt
unfolding new_conn
read_message-write_message_example =
    (read_message-write_message env client server 1 hello [] (hello-IsLink 5 refl (omega arith))
      refl refl).1

abbrev ping_frame : Frame
ping_frame = record {
  fin = true;
  rsv1 = false;
  rsv2 = false;
  rsv3 = false;
  opcode = 9;
  masked = true;
  payload = 1 ∷ [];
}

abbrev first_part : Frame
first_part = record {
  fin = false;
  rsv1 = false;
  rsv2 = false;
  rsv3 = false;
  opcode = 1;
  masked = true;
  payload = hello;
}

abbrev last_part : Frame
last_part = record {
  fin = true;
  rsv1 = false;
  rsv2 = false;
  rsv3 = false;
  opcode = 0;
  masked = true;
  payload = hello;
}

ping-IsAccepted : IsAccepted true false (pos 100) ping_frame
unfolding is_valid_opcode mask_allowed
ping-IsAccepted = record {
  opcode = refl;
  role = refl;
  fits = refl;
  int64 = omega arith;
  bytes = omega arith;
}

first-IsAccepted : IsAccepted true false (pos 100) first_part
unfolding is_valid_opcode mask_allowed
first-IsAccepted = record {
  opcode = refl;
  role = refl;
  fits = refl;
  int64 = omega arith;
  bytes = omega arith;
}

last-IsAccepted : IsAccepted true false (pos 100) last_part
unfolding is_valid_opcode mask_allowed
last-IsAccepted = record {
  opcode = refl;
  role = refl;
  fits = refl;
  int64 = omega arith;
  bytes = omega arith;
}

read_frame-frame_bytes_example :
    read_frame true false (pos 100) (frame_bytes ping_frame rfc_key ++ (7 ∷ []))
    ≡ (ok ping_frame, 7 ∷ [])
read_frame-frame_bytes_example =
    read_frame-frame_bytes true false (pos 100) ping_frame rfc_key (7 ∷ []) ping-IsAccepted
      rfc_key-IsKey

read_message-interleaved_example :
    (read_message (record server {
      inbox =
          frame_bytes first_part rfc_key
          ++ (frame_bytes ping_frame rfc_key ++ (frame_bytes last_part rfc_key ++ []));
    })).0
    ≡ ok (9, 1 ∷ [])
unfolding new_conn
read_message-interleaved_example =
    (read_message-interleaved env server first_part ping_frame last_part 0 0 0 [] refl
      (λ n. rfc_key-IsKey) first-IsAccepted ping-IsAccepted last-IsAccepted refl (omega arith)
      (omega arith) (omega arith) refl refl).0

read_frame-truncated_example : EndsShort (read_frame true false (pos 100) (0x89 ∷ []))
unfolding frame_bytes first_byte header_size put_length make set_at copy_at on_tail mask_bytes
    mask_from
read_frame-truncated_example =
    read_frame-truncated true false (pos 100) ping_frame rfc_key (0x89 ∷ []) 0x81
      (0x37 ∷ 0xfa ∷ 0x21 ∷ 0x3d ∷ 0x36 ∷ []) ping-IsAccepted rfc_key-IsKey refl

read_frame_ok_example :
    (is_valid_opcode 9 ≡ true) × (mask_allowed true false true ≡ true) × (1 ≤ 100) × (1 + 1 + 2 ≤ 8)
unfolding frame_bytes first_byte header_size put_length make set_at copy_at on_tail mask_bytes
    mask_from
read_frame_ok_example =
    read_frame_ok true false 100 (frame_bytes ping_frame rfc_key ++ (7 ∷ [])) (7 ∷ []) ping_frame
      read_frame-frame_bytes_example

read_frame-negative_length_example :
    (read_frame true false
      (pos 100)
      (0x82 ∷ 255 ∷ (put_uint64 (2 ^ 63) ++ (key_bytes rfc_key ++ hello)))).1
    ≡ hello
unfolding is_valid_opcode
read_frame-negative_length_example =
    ap (λ p. p.1)
      (read_frame-negative_length 100 0x82 (2 ^ 63) rfc_key hello refl (omega arith) (omega arith))

read_message-ne-stuck_example : (read_message (record server { inbox = 0x89 ∷ [] })).0 ≢ stuck
read_message-ne-stuck_example = read_message-ne-stuck (record server { inbox = 0x89 ∷ [] })

abbrev counting : Handlers ℕ
counting = collector env (λ t data' n. n + length data')

counting-IsQuiet : IsQuiet counting
unfolding set_default_handlers write_pong write_frame compress
counting-IsQuiet = record {
  open_quiet = λ w. omega arith;
  message_quiet = λ t data' w. omega arith;
  ping_quiet = λ data' w. ground arith;
  pong_quiet = λ data' w. omega arith;
}

handle_connection-ends_example :
    (handle_connection counting (world (record server { inbox = hello }) 0)).0 ≡ ok tt
handle_connection-ends_example =
    handle_connection-ends counting counting-IsQuiet (world (record server { inbox = hello }) 0)

hello_links : AreLinks env client server ((1, hello) ∷ (1, hello) ∷ [])
hello_links = (hello-IsLink 5 refl (omega arith), (hello-IsLink 5 refl (omega arith), tt))

handle_connection-write_all_example :
    (wire : List ℕ) × ((write_all env ((1, hello) ∷ (1, hello) ∷ []) client).outbox
      ≡ client.outbox ++ wire)
    × ((handle_connection counting (world (record server { inbox = wire }) 0)).1.app ≡ 10)
unfolding new_conn
handle_connection-write_all_example =
    handle_connection-write_all env (λ t data' n. n + length data') ((1, hello) ∷ (1, hello) ∷ [])
      client server 0 hello_links refl refl

shut_client : Conn
unfolding new_conn
shut_client = record client { closed = true; net_open = false }
