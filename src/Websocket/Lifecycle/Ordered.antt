-- ===== src/Websocket/Lifecycle/Ordered.antt =====
-- A run of messages from `WriteMessage` on one side to `onMessage` on the other.
use sio.Base.{
  ◌==◌, ◌⊎◌, ℕ, zero, suc, ◌<◌, ◌≡◌, refl, sym, ap, ◌∙◌, false, List, [], ◌∷◌, ◌++◌, length, none,
  some, if-false, arith, append_assoc, append-nil, length-append,
}
use sio.Websocket.Types.{
  opcode_ping, opcode_pong, opcode_close, opcode_text, opcode_binary, Conn, Env, Frame, Result, err,
  eof,
}
use sio.Websocket.Frame.{frame_bytes, read_frame, read_full}
use sio.Websocket.Frame.Layout.{two-le-length-frame_bytes}
use sio.Websocket.Message.{read_message, read_loop, on_answer, write_message, whole_frame}
use sio.Websocket.Message.Total.{read_message-open}
use sio.Websocket.Message.Delivery.{IsLink, written, write_message-open, read_message-whole_frame}
use sio.Websocket.Lifecycle.{
  World, Handlers, set_default_handlers, dispatch, on_read, serve, handle_connection, world,
}

-- The client code: one `WriteMessage` after the other.
unfoldable pub write_all : Env → List (ℕ × List ℕ) → Conn → Conn
write_all env [] s = s
write_all env ((t, data') ∷ ms) s = write_all env ms (write_message env t data' s).1

-- An application that takes each message into its state, beside the default handlers.
abbrev pub collector : {S : Type 0} → Env → (ℕ → List ℕ → S → S) → Handlers S
collector env take_in = set_default_handlers env (record {
  on_open = none;
  on_message = some (λ t data' w. record w { app = take_in t data' w.app });
  on_close = none;
  on_error = none;
  on_ping = none;
  on_pong = none;
})

abbrev fold_in : {S : Type 0} → (ℕ → List ℕ → S → S) → List (ℕ × List ℕ) → S → S
fold_in take_in [] app = app
fold_in take_in ((t, data') ∷ ms) app = fold_in take_in ms (take_in t data' app)

abbrev pub AreLinks : Env → Conn → Conn → List (ℕ × List ℕ) → Type 0
AreLinks env s r [] = Unit {0}
AreLinks env s r ((t, data') ∷ ms) = IsLink env s r t (length data') data' × AreLinks env s r ms

-- The end of the stream, between two messages.
read_message_end :
    (r : Conn)
    → r.closed ≡ false
    → r.inbox ≡ []
    → read_message r ≡ (err eof, record r { inbox = []; message_buffer = [] })
unfolding read_loop on_answer read_frame read_full
read_message_end r o e =
    let r0 = record r { message_buffer = [] } in
    let next = λ (d : Conn) (u : ℕ). read_loop (length r.inbox) d u in
    let frame = read_frame r.is_server r.is_client r.config.max_frame_size in
    read_message-open r o ∙ ap (λ b. on_answer next r0 0 (frame b)) e

-- Text and binary messages are no control frames.
kind-data :
    (t : ℕ)
    → (t ≡ opcode_text) ⊎ (t ≡ opcode_binary)
    → ((t == opcode_ping) ≡ false) × ((t == opcode_pong) ≡ false) × ((t == opcode_close) ≡ false)
kind-data t h = ground arith

module _ {S : Type 0} (env : Env) (take_in : ℕ → List ℕ → S → S) where
  -- At the end of the stream the loop stops, and the application is left alone.
  serve_end :
      (fuel : ℕ) (r : Conn) (app : S)
      → r.closed ≡ false
      → r.inbox ≡ []
      → (serve (suc fuel) (collector env take_in) (world r app)).1.app ≡ app
  unfolding serve on_read set_default_handlers
  serve_end fuel r app o e =
      let h = collector env take_in in
      let next = λ (v : World S). serve fuel h v in
      let w = world (record r { inbox = []; message_buffer = [] }) app in
      ap (λ p. p.1.app)
        (if-false {A = Result (Unit {0}) × World S} r.closed _ _ o
          ∙ ap (on_read next h app) (read_message_end r o e))
      ∙ ap (λ v. v.app) (if-false r.closed w w o)

  dispatch_data :
      (next : World S → Result (Unit {0}) × World S) (t : ℕ) (data' : List ℕ) (r : Conn) (app : S)
      → (t ≡ opcode_text) ⊎ (t ≡ opcode_binary)
      → dispatch next (collector env take_in) t data' (world r app)
        ≡ next (world r (take_in t data' app))
  unfolding dispatch set_default_handlers
  dispatch_data next t data' r app kind =
      let (ping, pong, close') = kind-data t kind in rw (ping, pong, close')

  serve_message :
      (fuel : ℕ) (s r : Conn) (t : ℕ) (data' rest : List ℕ) (app : S)
      → IsLink env s r t (length data') data'
      → r.closed ≡ false
      → r.inbox ≡ frame_bytes (whole_frame t data' s) (env.random s.drawn) ++ rest
      → serve (suc fuel) (collector env take_in) (world r app)
        ≡ serve fuel
            (collector env take_in)
            (world (record r { inbox = rest; message_buffer = data' }) (take_in t data' app))
  unfolding serve on_read
  serve_message fuel s r t data' rest app link o e =
      let h = collector env take_in in
      let next = λ (v : World S). serve fuel h v in
      if-false {A = Result (Unit {0}) × World S} r.closed _ _ o
      ∙ ap (on_read next h app) (read_message-whole_frame env s r t data' rest link o e)
      ∙ dispatch_data next t data' (record r { inbox = rest; message_buffer = data' }) app link.kind

-- Neither a write nor a read changes what a link depends on.
links-moved :
    (env : Env) (f : Frame) (s r : Conn) (input buffer : List ℕ) (ms : List (ℕ × List ℕ))
    → AreLinks env s r ms
    → AreLinks env (written env f s) (record r { inbox = input; message_buffer = buffer }) ms
links-moved env f s r input buffer [] links = tt
links-moved env f s r input buffer ((t, data') ∷ ms) (link, links) = (
  record {
    keys = link.keys;
    net_open = link.net_open;
    plain = link.plain;
    role = link.role;
    kind = link.kind;
    bytes = link.bytes;
    frame_fits = link.frame_fits;
    message_fits = link.message_fits;
    int64 = link.int64;
  },
  links-moved env f s r input buffer ms links,
)

module _ {S : Type 0} (env : Env) (take_in : ℕ → List ℕ → S → S) where
  -- The bytes of a run of messages, and what the reader makes of them.
  abbrev Collects : Conn → Conn → List (ℕ × List ℕ) → List ℕ → Type 0
  Collects s r ms wire =
      (fuel : ℕ) (app : S)
      → length wire < fuel
      → (serve fuel (collector env take_in) (world (record r { inbox = wire }) app)).1.app
        ≡ fold_in take_in ms app

  Collects-end : (s r : Conn) → r.closed ≡ false → Collects s r [] []
  Collects-end s r or zero app h = absurd (omega arith)
  Collects-end s r or (suc fuel) app h =
      serve_end env take_in fuel (record r { inbox = [] }) app or refl

  Collects-next :
      (t : ℕ) (data' wire : List ℕ) (ms : List (ℕ × List ℕ)) (s r : Conn)
      → IsLink env s r t (length data') data'
      → r.closed ≡ false
      → Collects
          (written env (whole_frame t data' s) s)
          (record r { message_buffer = data' })
          ms
          wire
      → Collects s r
          ((t, data') ∷ ms)
          (frame_bytes (whole_frame t data' s) (env.random s.drawn) ++ wire)
  Collects-next t data' wire ms s r link or later zero app h = absurd (omega arith)
  Collects-next t data' wire ms s r link or later (suc fuel) app h =
      let front = frame_bytes (whole_frame t data' s) (env.random s.drawn) in
      let r1 = record r { inbox = front ++ wire } in
      let link1 : IsLink env s r1 t (length data') data' = record {
        keys = link.keys;
        net_open = link.net_open;
        plain = link.plain;
        role = link.role;
        kind = link.kind;
        bytes = link.bytes;
        frame_fits = link.frame_fits;
        message_fits = link.message_fits;
        int64 = link.int64;
      } in
      ap (λ p. p.1.app) (serve_message env take_in fuel s r1 t data' wire app link1 or refl)
      ∙ later fuel (take_in t data' app) (
          omega (
            arith,
            length-append front wire,
            two-le-length-frame_bytes (whole_frame t data' s) (env.random s.drawn),
          ))

  collected :
      (ms : List (ℕ × List ℕ)) (s r : Conn)
      → AreLinks env s r ms
      → s.closed ≡ false
      → r.closed ≡ false
      → (wire : List ℕ) × ((write_all env ms s).outbox ≡ s.outbox ++ wire) × Collects s r ms wire
  unfolding write_all
  collected [] s r links os or = ([], sym (append-nil s.outbox), Collects-end s r or)
  collected ((t, data') ∷ ms) s r (link, links) os or =
      let f = whole_frame t data' s in
      let front = frame_bytes f (env.random s.drawn) in
      let r' = record r { message_buffer = data' } in
      let sent = write_message-open env t data' s os link.net_open link.plain in
      let (wire, out, later) =
        collected ms (written env f s) r' (links-moved env f s r r.inbox data' ms links) os or in
      (
        front ++ wire,
        ap (λ p. (write_all env ms p.1).outbox) sent ∙ out ∙ append_assoc s.outbox front wire,
        Collects-next t data' wire ms s r link or later,
      )

  -- What one side writes with a run of `WriteMessage` calls reaches the other side's `onMessage`
  -- in order, each message once and whole, before the end of the stream: the application's state
  -- is that of taking the messages in one after the other.
  pub handle_connection-write_all :
      (ms : List (ℕ × List ℕ)) (s r : Conn) (app : S)
      → AreLinks env s r ms
      → s.closed ≡ false
      → r.closed ≡ false
      → (wire : List ℕ) × ((write_all env ms s).outbox ≡ s.outbox ++ wire)
        × ((handle_connection (collector env take_in) (world (record r { inbox = wire }) app)).1.app
            ≡ fold_in take_in ms app)
  unfolding handle_connection set_default_handlers
  handle_connection-write_all ms s r app links os or =
      let (wire, out, later) = collected ms s r links os or in
      (wire, out, later (suc (length wire)) app (omega arith))
