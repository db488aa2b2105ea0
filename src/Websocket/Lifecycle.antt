-- ===== src/Websocket/Lifecycle.antt =====
-- `close`, the default handlers, and the loop `handleConnection` of websocket/websocket.go.
-- The keep-alive goroutine is left out. `S` is the state of the application that the handlers see.
pub mod Closing
pub mod Serving
pub mod Ordered
use sio.Base.{
  ℕ, zero, suc, Bool, true, false, List, [], ltb, ◌==◌, if◌then◌else◌, length, take, drop, Option,
  none, some,
}
use sio.Websocket.Types.{
  Env, Conn, Error, Result, ok, err, stuck, close_normal_closure, opcode_ping, opcode_pong,
  opcode_close,
}
use sio.Websocket.Frame.{uint16}
use sio.Websocket.Message.{read_message, write_close, write_pong}

-- `conn.Close` of the network connection ends the writes; its own result is taken to be nil.
unfoldable pub close : Env → ℕ → List ℕ → Conn → Result (Unit {0}) × Conn
close env code reason c =
    let c1 = record c { closed = true; close_reason = code; close_text = reason } in
    let sent = write_close env code reason c1 in
    if c.closed then (ok tt, c) else (ok tt, record (sent.1) { net_open = false })

-- The exported `Close`.
unfoldable close_normally : Env → Conn → Result (Unit {0}) × Conn
close_normally env c = close env close_normal_closure [] c

-- A connection and the application's state.
pub record World (S : Type 0) : Type 0 where
  pub conn : Conn
  pub app : S

-- The handlers that are set; `none` is nil.
pub record Handlers (S : Type 0) : Type 0 where
  pub on_open : Option (World S → World S)
  pub on_message : Option (ℕ → List ℕ → World S → World S)
  pub on_close : Option (ℕ → List ℕ → World S → World S)
  pub on_error : Option (Error → World S → World S)
  pub on_ping : Option (List ℕ → World S → World S)
  pub on_pong : Option (List ℕ → World S → World S)

-- The code and the reason of a close frame's payload.
abbrev close_code : List ℕ → ℕ
close_code data' = if ltb (length data') 2 then close_normal_closure else uint16 (take 2 data')

abbrev close_words : List ℕ → List ℕ
close_words data' = if ltb 2 (length data') then drop 2 data' else []

module _ {S : Type 0} where
  abbrev default_ping : Env → List ℕ → World S → World S
  default_ping env data' w = record w { conn = (write_pong env data' w.conn).1 }

  -- The send on `pongCh` goes through only if there is room; else it is dropped.
  abbrev default_pong : List ℕ → World S → World S
  default_pong data' w = record w { conn = record (w.conn) { pong_signal = true } }

  abbrev default_close : Env → ℕ → List ℕ → World S → World S
  default_close env code reason w = record w { conn = (close env code reason w.conn).1 }

  -- The default error handler prints.
  abbrev default_error : Error → World S → World S
  default_error e w = w

  unfoldable pub set_default_handlers : Env → Handlers S → Handlers S
  set_default_handlers env h = record h {
    on_close = some (default_close env);
    on_error = some default_error;
    on_ping = some (default_ping env);
    on_pong = some default_pong;
  }

  -- `if handler != nil { handler(...) }`
  abbrev pub call : Option (World S → World S) → World S → World S
  call none w = w
  call (some f) w = f w

  abbrev pub call_data : Option (List ℕ → World S → World S) → List ℕ → World S → World S
  call_data none data' w = w
  call_data (some f) data' w = f data' w

  abbrev pub call_tagged : Option (ℕ → List ℕ → World S → World S) → ℕ → List ℕ → World S → World S
  call_tagged none t data' w = w
  call_tagged (some f) t data' w = f t data' w

  abbrev call_error : Option (Error → World S → World S) → Error → World S → World S
  call_error none e w = w
  call_error (some f) e w = f e w

  -- The `switch` of `handleConnection`; `next` is the next round.
  unfoldable pub dispatch :
      (World S → Result (Unit {0}) × World S)
      → Handlers S
      → ℕ
      → List ℕ
      → World S
      → Result (Unit {0}) × World S
  dispatch next h t data' w =
      let pinged = next (call_data h.on_ping data' w) in
      let ponged = next (call_data h.on_pong data' w) in
      let delivered = next (call_tagged h.on_message t data' w) in
      if t == opcode_ping
      then pinged
      else if t == opcode_pong
      then ponged
      else if t == opcode_close
      then (ok tt, call_tagged h.on_close (close_code data') (close_words data') w)
      else delivered

  abbrev pub world : Conn → S → World S
  world c app = record { conn = c; app = app }

  unfoldable pub on_read :
      (World S → Result (Unit {0}) × World S)
      → Handlers S
      → S
      → Result (ℕ × List ℕ) × Conn
      → Result (Unit {0}) × World S
  on_read next h app (ok (t, data'), c) = dispatch next h t data' (world c app)
  on_read next h app (err e, c) =
      let w = world c app in (ok tt, if c.closed then w else call_error h.on_error e w)
  on_read next h app (stuck, c) = (stuck, world c app)

  unfoldable pub serve : ℕ → Handlers S → World S → Result (Unit {0}) × World S
  serve zero h w = (stuck, w)
  serve (suc fuel) h w =
      let c = w.conn in
      let round = on_read (λ v. serve fuel h v) h w.app (read_message c) in
      if c.closed then (ok tt, w) else round

  -- A round takes two bytes off the stream, or is the last.
  unfoldable pub handle_connection : Handlers S → World S → Result (Unit {0}) × World S
  handle_connection h w =
      let w1 = call h.on_open w in let c = w1.conn in serve (suc (length c.inbox)) h w1
