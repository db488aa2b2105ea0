-- ===== src/Websocket/Message/Fragments.antt =====
-- A message in fragments, from a writer to a reader.
mod Steps
use sio.Base.{
  ℕ, zero, suc, ◌+◌, ◌-◌, ◌≤◌, ◌<◌, ◌≡◌, refl, ap, ◌∙◌, ◌⊎◌, inl, inr, true, false, List, ◌++◌,
  length, take, drop, All, pos, ltz, ltb, arith, ne→==, ==_iff, if◌then◌else◌, take-length,
  if-false, if-true, lt→ltb, take-add, length-take, All-take, All-drop, ltz-le, append_assoc,
  length-append,
}
use native.Mathlib.Decide.{dec_lt}
use sio.Base.Bits.{IsByte}
use sio.Websocket.Types.{
  Conn, Env, Result, ok, stuck, opcode_text, opcode_binary, opcode_continuation,
}
use sio.Websocket.Frame.{frame_bytes, is_valid_opcode}
use sio.Websocket.Frame.Layout.{two-le-length-frame_bytes}
use sio.Websocket.Frame.RoundTrip.{IsAccepted}
use sio.Websocket.Message.{
  on_written, read_loop, read_message, fragment, write_fragments, write_fragmented,
}
use sio.Websocket.Message.Total.{read_message-open}
use sio.Websocket.Message.Delivery.{
  IsLink, written, write_frame-open, read_loop-frame, on_frame-last, on_frame-more,
}
use sio.Websocket.Message.Fragments.Steps.{
  write_fragments_step, write_fragments_end, end_last, end_more, fragment-length, fragment-IsByte,
  fragment_last, fragment_more, fragment-opcode,
}

-- What the reader makes of `wire`, in the middle of a message that is known up to `i`.
abbrev Reads : Conn → ℕ → ℕ → List ℕ → List ℕ → Type 0
Reads r t i data' wire =
    (fuel u : ℕ) (rest : List ℕ)
    → length (wire ++ rest) < fuel
    → (i ≡ 0) ⊎ (u ≡ t)
    → let answer =
        read_loop fuel (record r { inbox = wire ++ rest; message_buffer = take i data' }) u in
      (answer.0 ≡ ok (t, data')) × (answer.1.inbox ≡ rest)

abbrev Arrives : Result (Unit {0}) × Conn → Conn → Conn → ℕ → ℕ → List ℕ → Type 0
Arrives p s r t i data' =
    (wire : List ℕ) × (p.0 ≡ ok tt) × (p.1.outbox ≡ s.outbox ++ wire) × Reads r t i data' wire

fragment-IsAccepted :
    (env : Env) (s r : Conn) (t size i u : ℕ) (data' : List ℕ)
    → IsLink env s r t size data'
    → (i ≡ 0) ⊎ (u ≡ t)
    → IsAccepted r.is_server r.is_client r.config.max_frame_size (fragment t data' size i s)
fragment-IsAccepted env s r t size i u data' link known =
    let n = length (fragment t data' size i s).payload in
    let small = fragment-length t size i data' s in
    record {
      opcode = (fragment-opcode t size i data' s u link.kind known).0;
      role = link.role;
      fits = ltz-le r.config.max_frame_size n size small link.frame_fits;
      int64 = let h = link.int64 in omega (arith, small);
      bytes = fragment-IsByte t size i data' s link.bytes;
    }

-- The reader's round on the fragment at `i`: the last one completes the message, any other leads
-- to the next.
module _ (env : Env) (s r : Conn) (t size i : ℕ) (data' : List ℕ)
    (link : IsLink env s r t size data') (inside : i < length data') where
  abbrev bytes_at : List ℕ
  bytes_at = frame_bytes (fragment t data' size i s) (env.random s.drawn)

  Reads-last : length data' ≤ i + size → Reads r t i data' bytes_at
  Reads-last k zero u rest h known = absurd (omega arith)
  Reads-last k (suc fuel) u rest h known =
      let f = fragment t data' size i s in
      let r1 = record r { inbox = bytes_at ++ rest; message_buffer = take i data' } in
      let (fin, whole) = fragment_last t size i data' s inside k in
      let (_, small, kind) = fragment-opcode t size i data' s u link.kind known in
      let fits : ltz r.config.max_message_size (pos (length (take i data' ++ f.payload))) ≡ false =
        rw whole link.message_fits in
      let got =
        read_loop-frame fuel r1 u env s.drawn f rest
          (fragment-IsAccepted env s r t size i u data' link known) (link.keys s.drawn) refl
        ∙ on_frame-last _ f (record r1 { inbox = rest }) u t small kind fin fits in
      (ap (λ p. p.0) got ∙ ap (λ (d : List ℕ). ok (t, d)) whole, ap (λ p. p.1.inbox) got)

  Reads-more :
      (wire : List ℕ)
      → i + size < length data'
      → Reads r t (i + size) data' wire
      → Reads r t i data' (bytes_at ++ wire)
  Reads-more wire k later zero u rest h known = absurd (omega arith)
  Reads-more wire k later (suc fuel) u rest h known =
      let f = fragment t data' size i s in
      let r1 = record r { inbox = (bytes_at ++ wire) ++ rest; message_buffer = take i data' } in
      let (fin, part) = fragment_more t size i data' s k in
      let (_, small, kind) = fragment-opcode t size i data' s u link.kind known in
      let len : length (take i data' ++ f.payload) ≤ length data' =
        rw part (omega (arith, length-take (i + size) data')) in
      let fits =
        ltz-le r.config.max_message_size (length (take i data' ++ f.payload)) (length data') len
          link.message_fits in
      let shorter : length (wire ++ rest) < fuel = omega (
        arith,
        length-append bytes_at wire,
        length-append (bytes_at ++ wire) rest,
        length-append wire rest,
        two-le-length-frame_bytes f (env.random s.drawn),
      ) in
      let got =
        read_loop-frame fuel r1 u env s.drawn f (wire ++ rest)
          (fragment-IsAccepted env s r t size i u data' link known) (link.keys s.drawn)
          (append_assoc bytes_at wire rest)
        ∙ on_frame-more (λ d v. read_loop fuel d v) f (record r1 { inbox = wire ++ rest }) u t small
            kind fin fits
        ∙ ap (λ b. read_loop fuel (record r { inbox = wire ++ rest; message_buffer = b }) t) part in
      let (message, left) = later fuel t rest shorter (inr refl) in
      (ap (λ p. p.0) got ∙ message, ap (λ p. p.1.inbox) got ∙ left)

-- A link reads three fields of the writer, and writing a frame leaves these as they were.
IsLink-same :
    (env : Env) (s s' r : Conn) (t n : ℕ) (data' : List ℕ)
    → s'.net_open ≡ s.net_open
    → s'.compression_enabled ≡ s.compression_enabled
    → s'.is_client ≡ s.is_client
    → IsLink env s r t n data'
    → IsLink env s' r t n data'
IsLink-same env s s' r t n data' net plain client link = record {
  keys = link.keys;
  net_open = net ∙ link.net_open;
  plain = plain ∙ link.plain;
  role = rw client link.role;
  kind = link.kind;
  bytes = link.bytes;
  frame_fits = link.frame_fits;
  message_fits = link.message_fits;
  int64 = link.int64;
}

fragments_arrive :
    (fuel : ℕ) (env : Env) (s r : Conn) (t size i : ℕ) (data' : List ℕ)
    → IsLink env s r t size data'
    → 0 < size
    → i < length data'
    → length data' < fuel + i
    → Arrives (write_fragments fuel env t data' size i s) s r t i data'
fragments_arrive zero env s r t size i data' link some inside enough = absurd (omega arith)
fragments_arrive (suc zero) env s r t size i data' link some inside enough = absurd (omega arith)
fragments_arrive (suc (suc fuel)) env s r t size i data' link some inside enough =
    let f = fragment t data' size i s in
    let s' = written env f s in
    let here = bytes_at env s r t size i data' link inside in
    let step =
      write_fragments_step (suc fuel) env t size i data' s inside link.net_open link.plain in
    elim (dec_lt (i + size) (length data')) [
      | yes more ↦
          let (wire, sent, out, later) =
            fragments_arrive (suc fuel) env s' r t size (i + size) data'
              (IsLink-same env s s' r t size data' refl refl refl link) some more (omega arith) in
          rw step (
            here ++ wire,
            sent,
            out ∙ append_assoc s.outbox here wire,
            Reads-more env s r t size i data' link inside wire more later,
          )
      | no last ↦
          let done : length data' ≤ i + size = omega arith in
          rw (step, write_fragments_end fuel env t size (i + size) data' s' done)
            (here, refl, refl, Reads-last env s r t size i data' link inside done)
    ]

-- `WriteFragmented` and `ReadMessage` between peers: with a positive fragment size, data that is
-- not empty goes out in fragments of at most that size, and the other end's `ReadMessage` returns
-- its type and all of it, and leaves what follows on the stream. The frame limit is only asked of
-- the fragment size.
pub read_message-write_fragmented :
    (env : Env) (s r : Conn) (t size : ℕ) (data' rest : List ℕ)
    → IsLink env s r t size data'
    → 0 < size
    → 0 < length data'
    → s.fragmented_write_in_progress ≡ false
    → r.closed ≡ false
    → (wire : List ℕ) × ((write_fragmented env t data' size s).0 ≡ ok tt)
      × ((write_fragmented env t data' size s).1.outbox ≡ s.outbox ++ wire)
      × (let answer = read_message (record r { inbox = wire ++ rest }) in
          (answer.0 ≡ ok (t, data')) × (answer.1.inbox ≡ rest))
unfolding write_fragmented
read_message-write_fragmented env s r t size data' rest link some full idle or =
    let busy = record s { fragmented_write_in_progress = true } in
    let (wire, sent, out, reads) =
      fragments_arrive (suc (length data')) env busy r t size 0 data'
        (IsLink-same env s busy r t size data' refl refl refl link) some full (omega arith) in
    let r1 = record r { inbox = wire ++ rest } in
    let (message, left) = reads (suc (length (wire ++ rest))) 0 rest (omega arith) (inl refl) in
    let run = if-false {A = Result (Unit {0}) × Conn} s.fragmented_write_in_progress _ _ idle in
    (
      wire,
      ap (λ p. p.0) run ∙ sent,
      ap (λ p. p.1.outbox) run ∙ out,
      (
        ap (λ p. p.0) (read_message-open r1 or) ∙ message,
        ap (λ p. p.1.inbox) (read_message-open r1 or) ∙ left,
      ),
    )

-- A fragment size of 0 makes no progress: on data that is not empty the loop writes empty frames
-- for ever, and no number of rounds ends it.
pub write_fragments_zero :
    (fuel : ℕ) (env : Env) (t : ℕ) (data' : List ℕ) (s : Conn)
    → 0 < length data'
    → s.net_open ≡ true
    → s.compression_enabled ≡ false
    → (write_fragments fuel env t data' 0 0 s).0 ≡ stuck
unfolding write_fragments
write_fragments_zero zero env t data' s full net plain = refl
write_fragments_zero (suc fuel) env t data' s full net plain =
    rw (write_fragments_step fuel env t 0 0 data' s full net plain) (
      write_fragments_zero fuel env t data' (written env (fragment t data' 0 0 s) s) full net plain)
