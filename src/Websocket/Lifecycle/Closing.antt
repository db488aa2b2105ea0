-- ===== src/Websocket/Lifecycle/Closing.antt =====
-- The connection once it is closed.
use sio.Base.{
  lt→ltb, ◌<◌, suc, length, ℕ, ◌+◌, ◌≡◌, refl, ap, ◌∙◌, true, false, List, ◌++◌, if-true, if-false,
  if◌then◌else◌, arith,
}
use sio.Websocket.Types.{
  stuck, Frame, opcode_ping, opcode_pong, Conn, Env, Result, ok, err, connection_closed,
  write_failed, opcode_close,
}
use sio.Websocket.Frame.{write_frame, frame_bytes, put_uint16, compress}
use sio.Websocket.Message.{
  read_message, write_message, write_ping, write_pong, write_close, write_fragmented,
  write_fragments, whole_frame, on_written, fragment,
}
use sio.Websocket.Lifecycle.{close}

-- What `close` leaves behind.
pub record IsShut (c : Conn) : Type 0 where
  pub closed : c.closed ≡ true
  pub net_closed : c.net_open ≡ false

-- `close` on an open connection records the code and the reason, sends one close frame if the
-- network still takes it, and closes the network connection.
pub close_open :
    (env : Env) (code : ℕ) (reason : List ℕ) (c : Conn)
    → c.closed ≡ false
    → let c' = (close env code reason c).1 in
      IsShut c'
      × (c'.close_reason ≡ code)
      × (c'.close_text ≡ reason)
      × (c'.inbox ≡ c.inbox)
      × (c'.outbox ≡ (
          if c.net_open
          then c.outbox
            ++ frame_bytes
                (whole_frame opcode_close (put_uint16 code ++ reason) c)
                (env.random c.drawn)
          else c.outbox))
unfolding close write_close write_frame compress
close_open env code reason c o = ground arith

-- A second `close` changes nothing: one close frame at most is ever sent.
pub close_twice :
    (env : Env) (code code' : ℕ) (reason reason' : List ℕ) (c : Conn)
    → close env code' reason' (close env code reason c).1 ≡ (ok tt, (close env code reason c).1)
unfolding close write_close write_frame
close_twice env code code' reason reason' c = ground arith

write_frame-shut :
    (env : Env) (f : Frame) (c : Conn)
    → c.net_open ≡ false
    → ((write_frame env f c).0 ≡ err write_failed) × ((write_frame env f c).1.outbox ≡ c.outbox)
unfolding write_frame
write_frame-shut env f c e = ground arith

on_written-err :
    (next : Conn → Result (Unit {0}) × Conn) (p : Result (Unit {0}) × Conn)
    → p.0 ≡ err write_failed
    → on_written next p ≡ (err write_failed, p.1)
unfolding on_written
on_written-err next (ok u, d) e = cc
on_written-err next (err x, d) e = cc
on_written-err next (stuck, d) e = cc

write_fragments-shut :
    (fuel : ℕ) (env : Env) (t size i : ℕ) (data' : List ℕ) (c : Conn)
    → c.net_open ≡ false
    → i < length data'
    → let p = write_fragments (suc fuel) env t data' size i c in
      (p.0 ≡ err write_failed) × (p.1.outbox ≡ c.outbox)
unfolding write_fragments
write_fragments-shut fuel env t size i data' c e h =
    let f = fragment t data' size i c in
    let (fails, same) = write_frame-shut env f c e in
    rw (lt→ltb i (length data') h) (
      rw
        (on_written-err (λ d. write_fragments fuel env t data' size (i + size) d)
          (write_frame env f c) fails)
        (refl, same))

-- After `close` no call reads or writes: messages are refused with ErrConnectionClosed, and
-- control frames and fragments, which do not look at `closed`, fail on the network. No byte is
-- sent, and none is taken.
pub shut_refuses :
    (env : Env) (t size : ℕ) (data' : List ℕ) (c : Conn)
    → IsShut c
    → 0 < length data'
    → c.fragmented_write_in_progress ≡ false
    → (read_message c ≡ (err connection_closed, c))
      × (write_message env t data' c ≡ (err connection_closed, c))
      × ((write_ping env data' c).0 ≡ err write_failed)
      × ((write_ping env data' c).1.outbox ≡ c.outbox)
      × ((write_pong env data' c).0 ≡ err write_failed)
      × ((write_pong env data' c).1.outbox ≡ c.outbox)
      × ((write_fragmented env t data' size c).0 ≡ err write_failed)
      × ((write_fragmented env t data' size c).1.outbox ≡ c.outbox)
unfolding read_message write_message write_ping write_pong write_fragmented
shut_refuses env t size data' c shut full idle =
    let (ping, ping_out) =
      write_frame-shut env (whole_frame opcode_ping data' c) c shut.net_closed in
    let (pong, pong_out) =
      write_frame-shut env (whole_frame opcode_pong data' c) c shut.net_closed in
    let busy = record c { fragmented_write_in_progress = true } in
    let (part, part_out) =
      write_fragments-shut (length data') env t size 0 data' busy shut.net_closed full in
    let run = if-false {A = Result (Unit {0}) × Conn} c.fragmented_write_in_progress _ _ idle in
    (
      if-true c.closed _ _ shut.closed,
      if-true c.closed _ _ shut.closed,
      ping,
      ping_out,
      pong,
      pong_out,
      ap (λ p. p.0) run ∙ part,
      ap (λ p. p.1.outbox) run ∙ part_out,
    )
