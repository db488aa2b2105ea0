-- ===== src/Websocket/Lifecycle/Serving.antt =====
-- The loop `handleConnection` comes to an end, and answers the peer's control frames.
use sio.Base.{
  ◌==◌, ℕ, zero, suc, ◌+◌, ◌≤◌, ◌<◌, ◌≡◌, refl, ap, ◌∙◌, ◌≢◌, inl, inr, false, List, [], ◌++◌,
  length, if-true, if-false, arith, Bool-cases,
}
use sio.Websocket.Types.{
  opcode_ping, opcode_pong, opcode_close, Conn, Frame, Result, ok, err, stuck,
}
use sio.Websocket.Frame.Measure.{read_frame_cases}
use sio.Websocket.Message.{on_answer, on_frame, read_loop, read_message}
use sio.Websocket.Message.Total.{read_message-ne-stuck, read_message-open}
use sio.Websocket.Lifecycle.{
  World, Handlers, call, call_data, call_tagged, dispatch, on_read, serve, handle_connection, world,
}

-- A message takes two bytes off the stream at least.
abbrev Takes : Result (ℕ × List ℕ) × Conn → ℕ → Type 0
Takes p n = (m : ℕ × List ℕ) → p.0 ≡ ok m → length p.1.inbox + 2 ≤ n

on_frame-Takes :
    (next : Conn → ℕ → Result (ℕ × List ℕ) × Conn) (f : Frame) (c : Conn) (t n : ℕ)
    → length c.inbox + 2 ≤ n
    → ((u : ℕ) → Takes (next (record c { message_buffer = c.message_buffer ++ f.payload }) u) n)
    → Takes (on_frame next f c t) n
unfolding on_frame
on_frame-Takes next f c t n h later m e = grind (arith, later)

read_loop-Takes :
    (fuel : ℕ) (c : Conn) (t n : ℕ) → length c.inbox ≤ n → Takes (read_loop fuel c t) n
unfolding read_loop on_answer
read_loop-Takes zero c t n h = λ m e. cc
read_loop-Takes (suc fuel) c t n h =
    elim (read_frame_cases c.is_server c.is_client c.config.max_frame_size c.inbox) [
      | inl (f, rest, e, less) ↦ rw e (
          on_frame-Takes (λ d u. read_loop fuel d u) f (record c { inbox = rest }) t n (omega arith)
            (λ u.
              read_loop-Takes fuel
                (record c { inbox = rest; message_buffer = c.message_buffer ++ f.payload }) u n
                (omega arith)))
      | inr (x, rest, e) ↦ rw e (λ m q. cc q)
    ]

read_message-Takes : (c : Conn) → c.closed ≡ false → Takes (read_message c) (length c.inbox)
read_message-Takes c o = rw (read_message-open c o) (
    read_loop-Takes (suc (length c.inbox)) (record c { message_buffer = [] }) 0 (length c.inbox)
      (omega arith))

-- Handlers that put nothing back on the stream, as none can in Go.
pub record IsQuiet {S : Type 0} (h : Handlers S) : Type 0 where
  pub open_quiet : (w : World S) → length (call h.on_open w).conn.inbox ≤ length w.conn.inbox
  pub message_quiet :
      (t : ℕ) (data' : List ℕ) (w : World S)
      → length (call_tagged h.on_message t data' w).conn.inbox ≤ length w.conn.inbox
  pub ping_quiet :
      (data' : List ℕ) (w : World S)
      → length (call_data h.on_ping data' w).conn.inbox ≤ length w.conn.inbox
  pub pong_quiet :
      (data' : List ℕ) (w : World S)
      → length (call_data h.on_pong data' w).conn.inbox ≤ length w.conn.inbox

module _ {S : Type 0} (h : Handlers S) (quiet : IsQuiet h) where
  dispatch-ends :
      (next : World S → Result (Unit {0}) × World S) (t : ℕ) (data' : List ℕ) (w : World S)
      → ((v : World S) → length v.conn.inbox ≤ length w.conn.inbox → (next v).0 ≡ ok tt)
      → (dispatch next h t data' w).0 ≡ ok tt
  unfolding dispatch
  dispatch-ends next t data' w later =
      let ping = later (call_data h.on_ping data' w) (quiet.ping_quiet data' w) in
      let pong = later (call_data h.on_pong data' w) (quiet.pong_quiet data' w) in
      let message = later (call_tagged h.on_message t data' w) (quiet.message_quiet t data' w) in
      elim (Bool-cases (t == opcode_ping)) [
        | inl e ↦ rw e ping
        | inr e ↦ elim (Bool-cases (t == opcode_pong)) [
          | inl f ↦ rw (e, f) pong
          | inr f ↦ elim (Bool-cases (t == opcode_close)) [
            | inl g ↦ rw (e, f, g) refl
            | inr g ↦ rw (e, f, g) message
          ]
        ]
      ]

  on_read-ends :
      (next : World S → Result (Unit {0}) × World S) (app : S) (p : Result (ℕ × List ℕ) × Conn)
      (n : ℕ)
      → p.0 ≢ stuck
      → Takes p n
      → ((v : World S) → length v.conn.inbox + 2 ≤ n → (next v).0 ≡ ok tt)
      → (on_read next h app p).0 ≡ ok tt
  unfolding on_read
  on_read-ends next app (ok (t, data'), c) n answered takes later =
      dispatch-ends next t data' (world c app)
        (λ v less. later v (omega (arith, takes (t, data') refl)))
  on_read-ends next app (err e, c) n answered takes later = refl
  on_read-ends next app (stuck, c) n answered takes later = absurd (answered refl)

  serve-ends : (fuel : ℕ) (w : World S) → length w.conn.inbox < fuel → (serve fuel h w).0 ≡ ok tt
  unfolding serve
  serve-ends zero w enough = absurd (omega arith)
  serve-ends (suc fuel) w enough = elim (Bool-cases w.conn.closed) [
    | inl shut ↦ ap (λ p. p.0) (if-true {A = Result (Unit {0}) × World S} w.conn.closed _ _ shut)
    | inr open' ↦
        ap (λ p. p.0) (if-false {A = Result (Unit {0}) × World S} w.conn.closed _ _ open')
        ∙ on_read-ends (λ v. serve fuel h v) w.app (read_message w.conn) (length w.conn.inbox)
            (read_message-ne-stuck w.conn) (read_message-Takes w.conn open')
            (λ v less. serve-ends fuel v (omega arith))
  ]

  -- `handleConnection` returns on every stream, whatever the handlers do to the connection and to
  -- the application, as long as they put no bytes back on the stream.
  pub handle_connection-ends : (w : World S) → (handle_connection h w).0 ≡ ok tt
  unfolding handle_connection
  handle_connection-ends w = serve-ends _ (call h.on_open w) (omega arith)
