-- ===== src/Websocket/Frame.antt =====
-- `readFrame`, `writeFrame`, `isValidOpcode` and `maskBytes` of websocket/websocket.go.
-- Deadlines are left out: a read that times out ends like a stream that ends.
pub mod Buffer
pub mod Layout
pub mod Mask
pub mod Header
pub mod RoundTrip
pub mod Stream
pub mod Inverse
pub mod Measure
pub mod Reject
use sio.Base.{
  ℕ, zero, suc, ◌+◌, ◌-◌, ◌*◌, ◌/◌, ◌%◌, ◌^◌, bit_and, bit_or, bit_xor, Bool, true, false, not,
  ◌&&◌, ◌||◌, List, [], ◌∷◌, ◌++◌, ltb, ◌==◌, if◌then◌else◌, length, get_or, take, drop, ℤ, pos,
  ltz, to_int64,
}
use sio.Websocket.Types.{
  opcode_continuation, opcode_text, opcode_binary, opcode_close, opcode_ping, opcode_pong, flag_fin,
  flag_rsv1, flag_rsv2, flag_rsv3, flag_mask, max_payload7_bit, max_payload16_bit, Error,
  message_too_large, invalid_frame, invalid_opcode, eof, unexpected_eof, write_failed, Result, ok,
  err, stuck, Frame, MaskKey, key_bytes, Env, Conn,
}
use Buffer.{make, set_at, copy_at, on_tail}

-- A read from the stream: the result, and what is left of the stream also after an error.
abbrev pub Reader : Type 0 → Type 0
Reader A = List ℕ → Result A × List ℕ

abbrev pub and_then : {A B : Type 0} → Result A × List ℕ → (A → Reader B) → Result B × List ℕ
and_then (ok a, s) f = f a s
and_then (err e, s) f = (err e, s)
and_then (stuck, s) f = (stuck, s)

infixl 5 ◌>>=◌ ◌>>◌
abbrev pub ◌>>=◌ : {A B : Type 0} → Reader A → (A → Reader B) → Reader B
◌>>=◌ m f s = and_then (m s) f

abbrev ◌>>◌ : {B : Type 0} → Reader (Unit {0}) → Reader B → Reader B
m >> k = m >>= λ _. k

abbrev pub return : {A : Type 0} → A → Reader A
return a s = (ok a, s)

-- `if !b { return nil, e }`
abbrev pub guard : Bool → Error → Reader (Unit {0})
guard b e s = if b then (ok tt, s) else (err e, s)

-- io.ReadFull: all `n` bytes, or an error that says whether any byte was there.
unfoldable pub read_full : ℕ → Reader (List ℕ)
read_full n s =
    if ltb (length s) n
    then (err (if length s == 0 then eof else unexpected_eof), [])
    else (ok (take n s), drop n s)

-- binary.BigEndian
unfoldable pub uint16 : List ℕ → ℕ
uint16 b = get_or b 0 0 * 256 + get_or b 1 0

unfoldable pub uint64 : List ℕ → ℕ
uint64 b =
    get_or b 0 0 * 256 ^ 7
    + get_or b 1 0 * 256 ^ 6
    + get_or b 2 0 * 256 ^ 5
    + get_or b 3 0 * 256 ^ 4
    + get_or b 4 0 * 256 ^ 3
    + get_or b 5 0 * 256 ^ 2
    + get_or b 6 0 * 256
    + get_or b 7 0

unfoldable pub put_uint16 : ℕ → List ℕ
put_uint16 n = (n / 256 % 256) ∷ (n % 256) ∷ []

unfoldable pub put_uint64 : ℕ → List ℕ
put_uint64 n =
    (n / 256 ^ 7 % 256)
    ∷ (n / 256 ^ 6 % 256)
    ∷ (n / 256 ^ 5 % 256)
    ∷ (n / 256 ^ 4 % 256)
    ∷ (n / 256 ^ 3 % 256)
    ∷ (n / 256 ^ 2 % 256)
    ∷ (n / 256 % 256)
    ∷ (n % 256)
    ∷ []

unfoldable pub is_valid_opcode : ℕ → Bool
is_valid_opcode o =
    o == opcode_continuation
    || o == opcode_text
    || o == opcode_binary
    || o == opcode_close
    || o == opcode_ping
    || o == opcode_pong

-- `data[i] ^= key[i%4]` from index `i` on.
unfoldable pub mask_from : ℕ → List ℕ → List ℕ → List ℕ
mask_from i key [] = []
mask_from i key (b ∷ data') = bit_xor b (get_or key (i % 4) 0) ∷ mask_from (i + 1) key data'

unfoldable pub mask_bytes : List ℕ → List ℕ → List ℕ
mask_bytes data' key = mask_from 0 key data'

abbrev pub has_flag : ℕ → ℕ → Bool
has_flag b flag = not (bit_and b flag == 0)

-- Clients must mask, servers must not.
unfoldable pub mask_allowed : Bool → Bool → Bool → Bool
mask_allowed server client masked = if server then masked else if client then not masked else true

-- The payload length behind the seven bits of the second byte, as an int64.
unfoldable pub read_length : ℕ → Reader ℤ
read_length n =
    if n == 126
    then (do b ← read_full 2; return (to_int64 (uint16 b)))
    else if n == 127
    then (do b ← read_full 8; return (to_int64 (uint64 b)))
    else return (pos n)

abbrev pub read_mask_key : Bool → Reader (List ℕ)
read_mask_key masked = if masked then read_full 4 else return []

unfoldable pub read_payload : ℤ → Bool → List ℕ → Reader (List ℕ)
read_payload (pos zero) masked key = return []
read_payload (pos (suc n)) masked key = do
  payload ← read_full (suc n)
  return (if masked then mask_bytes payload key else payload)
read_payload negative masked key = return []

-- `readFrame` behind the two header bytes.
unfoldable pub read_after_header : Bool → Bool → ℤ → ℕ → ℕ → Reader Frame
read_after_header server client max_frame_size h0 h1 = do
  let masked = has_flag h1 flag_mask
  guard (is_valid_opcode (bit_and h0 0x0F)) invalid_opcode
  guard (mask_allowed server client masked) invalid_frame
  payload_len ← read_length (bit_and h1 0x7F)
  guard (not (ltz max_frame_size payload_len)) message_too_large
  key ← read_mask_key masked
  payload ← read_payload payload_len masked key
  return (record {
    fin = has_flag h0 flag_fin;
    rsv1 = has_flag h0 flag_rsv1;
    rsv2 = has_flag h0 flag_rsv2;
    rsv3 = has_flag h0 flag_rsv3;
    opcode = bit_and h0 0x0F;
    masked = masked;
    payload = payload;
  })

unfoldable pub read_frame : Bool → Bool → ℤ → Reader Frame
read_frame server client max_frame_size = do
  header ← read_full 2
  read_after_header server client max_frame_size (get_or header 0 0) (get_or header 1 0)

abbrev pub or_flag : Bool → ℕ → ℕ → ℕ
or_flag set flag b = if set then bit_or b flag else b

unfoldable pub first_byte : Frame → ℕ
first_byte f =
    or_flag f.rsv3 flag_rsv3
      (or_flag f.rsv2 flag_rsv2 (or_flag f.rsv1 flag_rsv1 (or_flag f.fin flag_fin f.opcode)))

unfoldable pub header_size : ℕ → Bool → ℕ
header_size n masked =
    2
    + (if ltb max_payload16_bit n then 8 else if ltb max_payload7_bit n then 2 else 0)
    + (if masked then 4 else 0)

-- The second byte without its mask bit, and the extended length; then the offset behind them.
unfoldable pub put_length : ℕ → List ℕ → List ℕ × ℕ
put_length n buffer =
    if ltb max_payload16_bit n
    then (copy_at 2 (put_uint64 n) (set_at 1 127 buffer), 10)
    else if ltb max_payload7_bit n
    then (copy_at 2 (put_uint16 n) (set_at 1 126 buffer), 4)
    else (set_at 1 n buffer, 2)

-- The buffer that `writeFrame` fills, in the order in which it fills it.
unfoldable pub frame_bytes : Frame → MaskKey → List ℕ
frame_bytes f key =
    let n = length f.payload in
    let buffer = set_at 0 (first_byte f) (make (header_size n f.masked + n)) in
    let (lengths, offset) = put_length n buffer in
    if f.masked
    then (let flagged = set_at 1 (bit_or (get_or lengths 1 0) flag_mask) lengths in
        let keyed = copy_at offset (key_bytes key) flagged in
        let filled = copy_at (offset + 4) f.payload keyed in
        on_tail (offset + 4) (λ tail. mask_bytes tail (key_bytes key)) filled)
    else copy_at offset f.payload lengths

-- With permessage-deflate on, a text or binary frame is compressed and marked.
unfoldable pub compress : Env → Bool → Frame → Frame
compress env enabled f =
    if enabled && (f.opcode == opcode_text || f.opcode == opcode_binary)
    then record f { payload = env.deflate f.payload; rsv1 = true }
    else f

unfoldable pub write_frame : Env → Frame → Conn → Result (Unit {0}) × Conn
write_frame env frame c =
    let f = compress env c.compression_enabled frame in
    let bytes = frame_bytes f (env.random c.drawn) in
    let c' = record c { drawn = if f.masked then c.drawn + 1 else c.drawn } in
    if c.net_open then (ok tt, record c' { outbox = c.outbox ++ bytes }) else (err write_failed, c')
