-- ===== src/Websocket/Message/Interleaved.antt =====
-- A control frame between the fragments of a message.
use sio.Base.{
  ℕ, suc, length-append, ◌-◌, ◌≤◌, ◌<◌, ◌≡◌, refl, ap, ◌∙◌, inl, false, List, [], ◌++◌, length, pos,
  ltz, arith,
}
use sio.Websocket.Types.{Conn, Env, Frame, Result, ok, err, invalid_frame, opcode_continuation}
use sio.Websocket.Frame.{frame_bytes}
use sio.Websocket.Frame.Mask.{IsKey}
use sio.Websocket.Frame.Layout.{two-le-length-frame_bytes}
use sio.Websocket.Frame.RoundTrip.{IsAccepted}
use sio.Websocket.Message.{on_frame, read_loop, read_message}
use sio.Websocket.Message.Total.{read_message-open}
use sio.Websocket.Message.Delivery.{read_loop-frame, on_frame-more}

-- A control frame ends the read at once.
on_frame-control :
    (next : Conn → ℕ → Result (ℕ × List ℕ) × Conn) (f : Frame) (c : Conn) (t : ℕ)
    → 8 ≤ f.opcode
    → on_frame next f c t ≡ (ok (f.opcode, f.payload), c)
unfolding on_frame
on_frame-control next f c t h = ground arith

-- A continuation with no message begun is refused.
on_frame-orphan :
    (next : Conn → ℕ → Result (ℕ × List ℕ) × Conn) (f : Frame) (c : Conn)
    → f.opcode ≡ opcode_continuation
    → on_frame next f c 0 ≡ (err invalid_frame, c)
unfolding on_frame
on_frame-orphan next f c h = ground arith

-- Where the peer sends a first fragment, then a control frame, then the continuation, as RFC 6455
-- lets it: the first `ReadMessage` returns the control frame, and the next one refuses the
-- continuation with ErrInvalidFrame. The first fragment is lost.
pub read_message-interleaved :
    (env : Env) (r : Conn) (first control last : Frame) (i j k : ℕ) (rest : List ℕ)
    → r.closed ≡ false
    → ((n : ℕ) → IsKey (env.random n))
    → IsAccepted r.is_server r.is_client r.config.max_frame_size first
    → IsAccepted r.is_server r.is_client r.config.max_frame_size control
    → IsAccepted r.is_server r.is_client r.config.max_frame_size last
    → first.fin ≡ false
    → 1 ≤ first.opcode
    → first.opcode < 8
    → 8 ≤ control.opcode
    → last.opcode ≡ opcode_continuation
    → ltz r.config.max_message_size (pos (length first.payload)) ≡ false
    → let tail = frame_bytes last (env.random k) ++ rest in
      let stream =
        frame_bytes first (env.random i) ++ (frame_bytes control (env.random j) ++ tail) in
      let one = read_message (record r { inbox = stream }) in
      let two = read_message one.1 in
      (one.0 ≡ ok (control.opcode, control.payload)) × (two.0 ≡ err invalid_frame)
read_message-interleaved env r first control last i j k rest or keys a b c fin low high ctl cont
      fits =
    let tail = frame_bytes last (env.random k) ++ rest in
    let mid = frame_bytes control (env.random j) ++ tail in
    let stream = frame_bytes first (env.random i) ++ mid in
    let r0 = record r { inbox = stream; message_buffer = [] } in
    let r1 = record r { inbox = mid; message_buffer = first.payload } in
    let r2 = record r { inbox = tail; message_buffer = first.payload } in
    let r3 = record r { inbox = tail; message_buffer = [] } in
    let fuel = length stream in
    let again : fuel ≡ suc (fuel - 1) = omega (
      arith,
      two-le-length-frame_bytes first (env.random i),
      length-append (frame_bytes first (env.random i)) mid,
    ) in
    let one =
      read_message-open (record r { inbox = stream }) or
      ∙ read_loop-frame fuel r0 0 env i first mid a (keys i) refl
      ∙ on_frame-more (λ d u. read_loop fuel d u) first (record r0 { inbox = mid }) 0 first.opcode
          high (inl (refl, low)) fin fits
      ∙ ap (λ m. read_loop m r1 first.opcode) again
      ∙ read_loop-frame (fuel - 1) r1 first.opcode env j control tail b (keys j) refl
      ∙ on_frame-control (λ d u. read_loop (fuel - 1) d u) control r2 first.opcode ctl in
    let two =
      ap (λ p. read_message p.1) one
      ∙ read_message-open r2 or
      ∙ read_loop-frame (length tail) r3 0 env k last rest c (keys k) refl
      ∙ on_frame-orphan (λ d u. read_loop (length tail) d u) last (record r3 { inbox = rest })
          cont in
    (ap (λ p. p.0) one, ap (λ p. p.0) two)
