-- ===== src/Websocket/Message/Total.antt =====
-- `ReadMessage` comes to an end on every stream.
use sio.Base.{
  ℕ, zero, suc, ◌<◌, ◌≡◌, ◌≢◌, List, [], length, arith, inl, inr, Bool-cases, true, false, ◌==◌,
  ◌++◌, if◌then◌else◌,
}
use sio.Websocket.Types.{Conn, Frame, Result, stuck, opcode_continuation}
use sio.Websocket.Frame.Measure.{read_frame_cases}
use sio.Websocket.Message.{on_answer, on_frame, read_loop, read_message}

abbrev Answered : {A : Type 0} → Result A × Conn → Type 0
Answered p = p.0 ≢ stuck

-- Whatever the frame, either the next round answers or this one does.
on_frame-Answered :
    (next : Conn → ℕ → Result (ℕ × List ℕ) × Conn) (f : Frame) (c : Conn) (t : ℕ)
    → ((u : ℕ) → Answered (next (record c { message_buffer = c.message_buffer ++ f.payload }) u))
    → Answered (on_frame next f c t)
unfolding on_frame
on_frame-Answered next f c t h e =
    let u = if f.opcode == opcode_continuation then t else f.opcode in ground (arith, h u)

read_loop-Answered :
    (fuel : ℕ) (c : Conn) (t : ℕ) → length c.inbox < fuel → Answered (read_loop fuel c t)
unfolding read_loop on_answer
read_loop-Answered zero c t h = absurd (omega arith)
read_loop-Answered (suc fuel) c t h =
    elim (read_frame_cases c.is_server c.is_client c.config.max_frame_size c.inbox) [
      | inl (f, rest, e, less) ↦ rw e (
          on_frame-Answered (λ d u. read_loop fuel d u) f (record c { inbox = rest }) t
            (λ u.
              read_loop-Answered fuel
                (record c { inbox = rest; message_buffer = c.message_buffer ++ f.payload }) u
                (omega arith)))
      | inr (x, rest, e) ↦ rw e (λ q. cc q)
    ]

-- An open connection reads in a loop with a fresh buffer.
pub read_message-open :
    (c : Conn)
    → c.closed ≡ false
    → read_message c ≡ read_loop (suc (length c.inbox)) (record c { message_buffer = [] }) 0
unfolding read_message
read_message-open c e = simp e

-- `ReadMessage` returns a message or an error whatever the stream holds: its loop never runs out
-- of the rounds that the model gives it.
pub read_message-ne-stuck : (c : Conn) → (read_message c).0 ≢ stuck
read_message-ne-stuck c = elim (Bool-cases c.closed) [
  | inl e ↦ closed_case e
  | inr e ↦
      rw (read_message-open c e) (
        read_loop-Answered (suc (length c.inbox)) (record c { message_buffer = [] }) 0
          (omega arith))
]
  where
    closed_case : c.closed ≡ true → (read_message c).0 ≢ stuck
    closed_case e q = unfold read_message in ground arith
