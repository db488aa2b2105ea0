-- ===== src/Websocket/Message.antt =====
-- `ReadMessage`, `WriteMessage` and its kin, and `WriteFragmented` of websocket/websocket.go.
pub mod Total
pub mod Delivery
pub mod Fragments
pub mod Interleaved
use sio.Base.{
  ℕ, zero, suc, ◌+◌, ◌-◌, ◌%◌, Bool, true, false, ◌&&◌, List, [], ◌++◌, ltb, leb, ◌==◌,
  if◌then◌else◌, length, take, drop, pos, ltz,
}
use sio.Websocket.Types.{
  opcode_continuation, opcode_text, opcode_binary, opcode_ping, opcode_pong, opcode_close,
  connection_closed, invalid_frame, message_too_large, fragmented_write_busy, Result, ok, err,
  stuck, Frame, Env, Conn,
}
use sio.Websocket.Frame.{read_frame, write_frame, put_uint16}

-- What the loop of `ReadMessage` does with a frame; `next` is the next round. The frame is off the
-- stream of `c` already. `message_type` is 0 until the first data frame.
unfoldable pub on_frame :
    (Conn → ℕ → Result (ℕ × List ℕ) × Conn) → Frame → Conn → ℕ → Result (ℕ × List ℕ) × Conn
on_frame next frame c message_type =
    let t = if frame.opcode == opcode_continuation then message_type else frame.opcode in
    let c2 = record c { message_buffer = c.message_buffer ++ frame.payload } in
    if leb 0x8 frame.opcode
    then (ok (frame.opcode, frame.payload), c)
    else if frame.opcode == opcode_continuation && message_type == 0
    then (err invalid_frame, c)
    else if ltz c.config.max_message_size (pos (length c2.message_buffer))
    then (err message_too_large, c2)
    else if frame.fin
    then (ok (t, c2.message_buffer), c2)
    else next c2 t

unfoldable pub on_answer :
    (Conn → ℕ → Result (ℕ × List ℕ) × Conn)
    → Conn
    → ℕ
    → Result Frame × List ℕ
    → Result (ℕ × List ℕ) × Conn
on_answer next c message_type (ok frame, rest) =
    on_frame next frame (record c { inbox = rest }) message_type
on_answer next c message_type (err e, rest) = (err e, record c { inbox = rest })
on_answer next c message_type (stuck, rest) = (stuck, record c { inbox = rest })

unfoldable pub read_loop : ℕ → Conn → ℕ → Result (ℕ × List ℕ) × Conn
read_loop zero c message_type = (stuck, c)
read_loop (suc fuel) c message_type =
    on_answer (λ d t. read_loop fuel d t) c message_type
      (read_frame c.is_server c.is_client c.config.max_frame_size c.inbox)

-- Each round takes a byte at least, so one round more than there are bytes is enough.
unfoldable pub read_message : Conn → Result (ℕ × List ℕ) × Conn
read_message c =
    if c.closed
    then (err connection_closed, c)
    else read_loop (suc (length c.inbox)) (record c { message_buffer = [] }) 0

-- `byte(messageType)` keeps the low byte.
abbrev pub whole_frame : ℕ → List ℕ → Conn → Frame
whole_frame message_type data' c = record {
  fin = true;
  rsv1 = false;
  rsv2 = false;
  rsv3 = false;
  opcode = message_type % 256;
  masked = c.is_client;
  payload = data';
}

unfoldable pub write_message : Env → ℕ → List ℕ → Conn → Result (Unit {0}) × Conn
write_message env message_type data' c =
    if c.closed
    then (err connection_closed, c)
    else write_frame env (whole_frame message_type data' c) c

unfoldable pub write_text : Env → List ℕ → Conn → Result (Unit {0}) × Conn
write_text env text = write_message env opcode_text text

unfoldable write_binary : Env → List ℕ → Conn → Result (Unit {0}) × Conn
write_binary env data' = write_message env opcode_binary data'

-- The control frames are written without a look at `closed`.
unfoldable pub write_ping : Env → List ℕ → Conn → Result (Unit {0}) × Conn
write_ping env data' c = write_frame env (whole_frame opcode_ping data' c) c

unfoldable pub write_pong : Env → List ℕ → Conn → Result (Unit {0}) × Conn
write_pong env data' c = write_frame env (whole_frame opcode_pong data' c) c

unfoldable pub write_close : Env → ℕ → List ℕ → Conn → Result (Unit {0}) × Conn
write_close env code reason c =
    write_frame env (whole_frame opcode_close (put_uint16 code ++ reason) c) c

-- The frame of `WriteFragmented` for the fragment that starts at `i`.
abbrev pub fragment : ℕ → List ℕ → ℕ → ℕ → Conn → Frame
fragment message_type data' size i c =
    let total = length data' in
    let end = if ltb total (i + size) then total else i + size in
    record {
      fin = end == total;
      rsv1 = false;
      rsv2 = false;
      rsv3 = false;
      opcode = if ltb 0 i then opcode_continuation else message_type % 256;
      masked = c.is_client;
      payload = take (end - i) (drop i data');
    }

unfoldable pub on_written :
    (Conn → Result (Unit {0}) × Conn) → Result (Unit {0}) × Conn → Result (Unit {0}) × Conn
on_written next (ok u, c) = next c
on_written next (err e, c) = (err e, c)
on_written next (stuck, c) = (stuck, c)

-- The loop of `WriteFragmented` from index `i` on.
unfoldable pub write_fragments : ℕ → Env → ℕ → List ℕ → ℕ → ℕ → Conn → Result (Unit {0}) × Conn
write_fragments zero env message_type data' size i c = (stuck, c)
write_fragments (suc fuel) env message_type data' size i c =
    let round =
      on_written (λ d. write_fragments fuel env message_type data' size (i + size) d)
        (write_frame env (fragment message_type data' size i c) c) in
    if ltb i (length data') then round else (ok tt, c)

-- A positive fragment size takes at most `length data` rounds; the size is not negative.
unfoldable pub write_fragmented : Env → ℕ → List ℕ → ℕ → Conn → Result (Unit {0}) × Conn
write_fragmented env message_type data' size c =
    if c.fragmented_write_in_progress
    then (err fragmented_write_busy, c)
    else (let busy = record c { fragmented_write_in_progress = true } in
        let (answer, c') =
          write_fragments (suc (length data')) env message_type data' size 0 busy in
        (answer, record c' { fragmented_write_in_progress = false }))
