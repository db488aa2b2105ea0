-- ===== src/Websocket/Types.antt =====
-- The constants, errors, frames, configuration and connection of websocket/websocket.go.
-- A byte is a number below 256 and a byte slice is a list.
use sio.Base.{ℕ, Bool, true, false, List, [], ◌∷◌, ℤ, pos}

abbrev pub opcode_continuation : ℕ
opcode_continuation = 0x0

abbrev pub opcode_text : ℕ
opcode_text = 0x1

abbrev pub opcode_binary : ℕ
opcode_binary = 0x2

abbrev pub opcode_close : ℕ
opcode_close = 0x8

abbrev pub opcode_ping : ℕ
opcode_ping = 0x9

abbrev pub opcode_pong : ℕ
opcode_pong = 0xA

abbrev pub flag_fin : ℕ
flag_fin = 0x80

abbrev pub flag_rsv1 : ℕ
flag_rsv1 = 0x40

abbrev pub flag_rsv2 : ℕ
flag_rsv2 = 0x20

abbrev pub flag_rsv3 : ℕ
flag_rsv3 = 0x10

abbrev pub flag_mask : ℕ
flag_mask = 0x80

abbrev pub max_payload7_bit : ℕ
max_payload7_bit = 125

abbrev pub max_payload16_bit : ℕ
max_payload16_bit = 65535

abbrev pub close_normal_closure : ℕ
close_normal_closure = 1000

abbrev close_going_away : ℕ
close_going_away = 1001

-- The package's errors, with those of io.ReadFull and of a failing network write.
pub data Error : Type 0 where
  connection_closed invalid_frame message_too_large invalid_opcode : Error
  invalid_handshake origin_not_allowed subprotocol_mismatch : Error
  fragmented_write_busy : Error
  eof unexpected_eof write_failed : Error

-- Go's (value, error) pair. `stuck` is no Go value: a loop of the model ran out of fuel.
pub data Result {ℓ} (A : Type ℓ) : Type ℓ where
  ok : A → Result A
  err : Error → Result A
  stuck : Result A

pub record Frame : Type 0 where
  pub fin : Bool
  pub rsv1 : Bool
  pub rsv2 : Bool
  pub rsv3 : Bool
  pub opcode : ℕ
  pub masked : Bool
  pub payload : List ℕ

-- The four bytes of a masking key.
pub record MaskKey : Type 0 where
  pub k0 : ℕ
  pub k1 : ℕ
  pub k2 : ℕ
  pub k3 : ℕ

abbrev pub key_bytes : MaskKey → List ℕ
key_bytes k = k.k0 ∷ k.k1 ∷ k.k2 ∷ k.k3 ∷ []

-- The limits of Config that the frame and message code reads. Both are int64.
pub record Config : Type 0 where
  pub max_message_size : ℤ
  pub max_frame_size : ℤ
  pub enable_ping_pong : Bool

-- `DefaultConfig`: one MB for both limits.
unfoldable default_config : Config
default_config = record {
  max_message_size = pos 0x100000;
  max_frame_size = pos 0x100000;
  enable_ping_pong = true;
}

-- crypto/rand, as the n-th key drawn, and compress/flate at its default level.
pub record Env : Type 0 where
  pub random : ℕ → MaskKey
  pub deflate : List ℕ → List ℕ

-- A connection. `inbox` is what the peer has sent and the reader has not taken, `outbox` what has
-- been flushed to the network, `net_open` whether the network takes writes, `drawn` how many
-- masking keys have been drawn, `pong_signal` whether the channel `pongCh` (capacity 1) is full.
pub record Conn : Type 0 where
  pub config : Config
  pub is_server : Bool
  pub is_client : Bool
  pub closed : Bool
  pub close_reason : ℕ
  pub close_text : List ℕ
  pub inbox : List ℕ
  pub outbox : List ℕ
  pub net_open : Bool
  pub drawn : ℕ
  pub message_buffer : List ℕ
  pub pong_signal : Bool
  pub compression_enabled : Bool
  pub fragmented_write_in_progress : Bool

-- The connection that `upgrade` and `handshake` build over a network connection.
unfoldable pub new_conn : Config → Bool → Bool → List ℕ → Conn
new_conn cfg compress server input = record {
  config = cfg;
  is_server = server;
  is_client = elim server [ true ↦ false | false ↦ true ];
  closed = false;
  close_reason = 0;
  close_text = [];
  inbox = input;
  outbox = [];
  net_open = true;
  drawn = 0;
  message_buffer = [];
  pong_signal = false;
  compression_enabled = compress;
  fragmented_write_in_progress = false;
}
