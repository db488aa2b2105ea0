-- ===== src/Websocket/Message/Delivery.antt =====
-- One whole frame from a writer to a reader.
use sio.Base.{
  ℕ, suc, ◌+◌, ◌%◌, ◌^◌, ◌≤◌, ◌<◌, ◌≡◌, refl, ap, ◌∙◌, ◌⊎◌, inl, true, false, List, [], ◌++◌,
  length, All, pos, ltz, arith, if-false,
}
use sio.Base.Bits.{IsByte}
use sio.Websocket.Types.{
  Conn, Env, Frame, Result, ok, opcode_text, opcode_binary, opcode_continuation,
}
use sio.Websocket.Frame.{
  read_frame, write_frame, frame_bytes, compress, mask_allowed, is_valid_opcode,
}
use sio.Websocket.Frame.Mask.{IsKey}
use sio.Websocket.Frame.RoundTrip.{IsAccepted, read_frame-frame_bytes}
use sio.Websocket.Message.{on_answer, on_frame, read_loop, read_message, write_message, whole_frame}
use sio.Websocket.Message.Total.{read_message-open}

-- A writer `s` whose network takes writes, a reader `r` in the other role, and a payload of at
-- most `n` bytes a frame that the reader's limits allow.
pub record IsLink (env : Env) (s r : Conn) (message_type n : ℕ) (data' : List ℕ) : Type 0 where
  pub keys : (i : ℕ) → IsKey (env.random i)
  pub net_open : s.net_open ≡ true
  pub plain : s.compression_enabled ≡ false
  pub role : mask_allowed r.is_server r.is_client s.is_client ≡ true
  pub kind : (message_type ≡ opcode_text) ⊎ (message_type ≡ opcode_binary)
  pub bytes : All IsByte data'
  pub frame_fits : ltz r.config.max_frame_size (pos n) ≡ false
  pub message_fits : ltz r.config.max_message_size (pos (length data')) ≡ false
  pub int64 : n < 2 ^ 63

-- The writer behind one frame.
abbrev pub written : Env → Frame → Conn → Conn
written env f s = record s {
  drawn = elim f.masked [ true ↦ s.drawn + 1 | false ↦ s.drawn ];
  outbox = s.outbox ++ frame_bytes f (env.random s.drawn);
}

pub write_frame-open :
    (env : Env) (f : Frame) (s : Conn)
    → s.net_open ≡ true
    → s.compression_enabled ≡ false
    → write_frame env f s ≡ (ok tt, written env f s)
unfolding write_frame compress
write_frame-open env f s open' plain = ground arith

-- A round of the reader's loop on a frame that the writer made.
pub read_loop-frame :
    (fuel : ℕ) (r : Conn) (t : ℕ) (env : Env) (i : ℕ) (f : Frame) (rest : List ℕ)
    → IsAccepted r.is_server r.is_client r.config.max_frame_size f
    → IsKey (env.random i)
    → r.inbox ≡ frame_bytes f (env.random i) ++ rest
    → read_loop (suc fuel) r t
      ≡ on_frame (λ d u. read_loop fuel d u) f (record r { inbox = rest }) t
unfolding read_loop on_answer
read_loop-frame fuel r t env i f rest a k e =
    let answer : read_frame r.is_server r.is_client r.config.max_frame_size r.inbox ≡ (ok f, rest) =
      ap (read_frame r.is_server r.is_client r.config.max_frame_size) e
      ∙ read_frame-frame_bytes r.is_server r.is_client r.config.max_frame_size f (env.random i) rest
          a k in
    rw answer

-- Text and binary are known opcodes, below 8, and no continuation.
kind-opcode :
    (t : ℕ)
    → (t ≡ opcode_text) ⊎ (t ≡ opcode_binary)
    → (is_valid_opcode (t % 256) ≡ true) × (t % 256 ≡ t) × (1 ≤ t) × (t < 8)
unfolding is_valid_opcode
kind-opcode t h = ground arith

-- The two things that the loop does with a data frame that keeps the limit.
pub on_frame-last :
    (next : Conn → ℕ → Result (ℕ × List ℕ) × Conn) (f : Frame) (c : Conn) (t u : ℕ)
    → f.opcode < 8
    → ((f.opcode ≡ u) × (1 ≤ u)) ⊎ ((f.opcode ≡ opcode_continuation) × (t ≡ u) × (1 ≤ u))
    → f.fin ≡ true
    → ltz c.config.max_message_size (pos (length (c.message_buffer ++ f.payload))) ≡ false
    → on_frame next f c t ≡ (
      ok (u, c.message_buffer ++ f.payload),
      record c { message_buffer = c.message_buffer ++ f.payload },
    )
unfolding on_frame
on_frame-last next f c t u small kind fin fits = ground arith

pub on_frame-more :
    (next : Conn → ℕ → Result (ℕ × List ℕ) × Conn) (f : Frame) (c : Conn) (t u : ℕ)
    → f.opcode < 8
    → ((f.opcode ≡ u) × (1 ≤ u)) ⊎ ((f.opcode ≡ opcode_continuation) × (t ≡ u) × (1 ≤ u))
    → f.fin ≡ false
    → ltz c.config.max_message_size (pos (length (c.message_buffer ++ f.payload))) ≡ false
    → on_frame next f c t ≡ next (record c { message_buffer = c.message_buffer ++ f.payload }) u
unfolding on_frame
on_frame-more next f c t u small kind fin fits = ground arith

pub write_message-open :
    (env : Env) (t : ℕ) (data' : List ℕ) (s : Conn)
    → s.closed ≡ false
    → s.net_open ≡ true
    → s.compression_enabled ≡ false
    → write_message env t data' s ≡ (ok tt, written env (whole_frame t data' s) s)
unfolding write_message
write_message-open env t data' s os net plain =
    if-false s.closed _ _ os ∙ write_frame-open env (whole_frame t data' s) s net plain

-- The frame of a whole message is one that the reader accepts.
whole_frame-IsAccepted :
    (env : Env) (s r : Conn) (t : ℕ) (data' : List ℕ)
    → IsLink env s r t (length data') data'
    → IsAccepted r.is_server r.is_client r.config.max_frame_size (whole_frame t data' s)
whole_frame-IsAccepted env s r t data' link = record {
  opcode = (kind-opcode t link.kind).0;
  role = link.role;
  fits = link.frame_fits;
  int64 = link.int64;
  bytes = link.bytes;
}

-- The reader's side, with all that it changes.
pub read_message-whole_frame :
    (env : Env) (s r : Conn) (t : ℕ) (data' rest : List ℕ)
    → IsLink env s r t (length data') data'
    → r.closed ≡ false
    → r.inbox ≡ frame_bytes (whole_frame t data' s) (env.random s.drawn) ++ rest
    → read_message r ≡ (ok (t, data'), record r { inbox = rest; message_buffer = data' })
read_message-whole_frame env s r t data' rest link or e =
    let f = whole_frame t data' s in
    let r2 = record r { message_buffer = [] } in
    let (valid, same, low, high) = kind-opcode t link.kind in
    read_message-open r or
    ∙ read_loop-frame (length r.inbox) r2 0 env s.drawn f rest
        (whole_frame-IsAccepted env s r t data' link) (link.keys s.drawn) e
    ∙ on_frame-last (λ d u. read_loop (length r.inbox) d u) f (record r2 { inbox = rest }) 0 t
        (omega arith) (inl (same, low)) refl link.message_fits

-- Between peers an uncompressed message arrives: `WriteMessage` succeeds, and `ReadMessage` at the
-- other end returns the type and the data, and leaves what follows on the stream.
pub read_message-write_message :
    (env : Env) (s r : Conn) (t : ℕ) (data' rest : List ℕ)
    → IsLink env s r t (length data') data'
    → s.closed ≡ false
    → r.closed ≡ false
    → (wire : List ℕ) × ((write_message env t data' s).0 ≡ ok tt)
      × ((write_message env t data' s).1.outbox ≡ s.outbox ++ wire)
      × (let answer = read_message (record r { inbox = wire ++ rest }) in
          (answer.0 ≡ ok (t, data')) × (answer.1.inbox ≡ rest))
read_message-write_message env s r t data' rest link os or =
    let wire = frame_bytes (whole_frame t data' s) (env.random s.drawn) in
    let sent = write_message-open env t data' s os link.net_open link.plain in
    let r1 = record r { inbox = wire ++ rest } in
    let got =
      read_message-whole_frame env s r1 t data' rest
        (record {
          keys = link.keys;
          net_open = link.net_open;
          plain = link.plain;
          role = link.role;
          kind = link.kind;
          bytes = link.bytes;
          frame_fits = link.frame_fits;
          message_fits = link.message_fits;
          int64 = link.int64;
        })
        or refl in
    (
      wire,
      ap (λ p. p.0) sent,
      ap (λ p. p.1.outbox) sent,
      (ap (λ p. p.0) got, ap (λ p. p.1.inbox) got),
    )
