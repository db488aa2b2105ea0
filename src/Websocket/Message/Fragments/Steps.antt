-- ===== src/Websocket/Message/Fragments/Steps.antt =====
-- The rounds of `WriteFragmented`, and the fragment of each.
use sio.Base.{
  ℕ, suc, ◌+◌, ◌-◌, ◌≤◌, ◌<◌, ◌≡◌, refl, ◌∙◌, ◌⊎◌, true, false, List, ◌++◌, length, take, drop, All,
  ltb, arith, ne→==, ==_iff, if◌then◌else◌, take-length, if-true, lt→ltb, take-add, length-take,
  All-take, All-drop,
}
use sio.Base.Bits.{IsByte}
use sio.Websocket.Types.{Conn, Env, ok, opcode_text, opcode_binary, opcode_continuation}
use sio.Websocket.Frame.{is_valid_opcode}
use sio.Websocket.Message.{on_written, fragment, write_fragments}
use sio.Websocket.Message.Delivery.{written, write_frame-open}

pub write_fragments_step :
    (fuel : ℕ) (env : Env) (t size i : ℕ) (data' : List ℕ) (s : Conn)
    → i < length data'
    → s.net_open ≡ true
    → s.compression_enabled ≡ false
    → write_fragments (suc fuel) env t data' size i s
      ≡ write_fragments fuel env t data' size (i + size) (written env (fragment t data' size i s) s)
unfolding write_fragments on_written
write_fragments_step fuel env t size i data' s h net plain =
    if-true (ltb i (length data')) _ _ (lt→ltb i (length data') h)
    ∙ rw (write_frame-open env (fragment t data' size i s) s net plain)

pub write_fragments_end :
    (fuel : ℕ) (env : Env) (t size i : ℕ) (data' : List ℕ) (s : Conn)
    → length data' ≤ i
    → write_fragments (suc fuel) env t data' size i s ≡ (ok tt, s)
unfolding write_fragments
write_fragments_end fuel env t size i data' s h = ground arith

pub end_last : (total e : ℕ) → total ≤ e → (if ltb total e then total else e) ≡ total
end_last total e h = ground arith

pub end_more : (total e : ℕ) → e < total → (if ltb total e then total else e) ≡ e
end_more total e h = ground arith

module _ (t size i : ℕ) (data' : List ℕ) (s : Conn) where
  pub fragment-length : length (fragment t data' size i s).payload ≤ size
  fragment-length =
      let total = length data' in
      ground
        (arith, length-take (total - i) (drop i data'), length-take (i + size - i) (drop i data'))

  pub fragment-IsByte : All IsByte data' → All IsByte (fragment t data' size i s).payload
  fragment-IsByte b = All-take IsByte _ (drop i data') (All-drop IsByte i data' b)

  -- The last fragment completes the data and has FIN; any other is `size` bytes long.
  pub fragment_last :
      i < length data'
      → length data' ≤ i + size
      → ((fragment t data' size i s).fin ≡ true)
        × (take i data' ++ (fragment t data' size i s).payload ≡ data')
  fragment_last h k =
      let total = length data' in
      let whole : i + (total - i) ≡ total = omega arith in
      rw (end_last total (i + size) k)
        ((==_iff total total).1 refl, take-add i (total - i) data' ∙ rw (whole, take-length data'))

  pub fragment_more :
      i + size < length data'
      → ((fragment t data' size i s).fin ≡ false)
        × (take i data' ++ (fragment t data' size i s).payload ≡ take (i + size) data')
  fragment_more h =
      let total = length data' in
      let next : i + (i + size - i) ≡ i + size = omega arith in
      rw (end_more total (i + size) h)
        (ne→== (i + size) total (omega arith), take-add i (i + size - i) data' ∙ rw next)

  -- The first fragment has the message's opcode, any later one is a continuation.
  pub fragment-opcode :
      (u : ℕ)
      → (t ≡ opcode_text) ⊎ (t ≡ opcode_binary)
      → (i ≡ 0) ⊎ (u ≡ t)
      → let o = (fragment t data' size i s).opcode in
        (is_valid_opcode o ≡ true)
        × (o < 8)
        × (((o ≡ t) × (1 ≤ t)) ⊎ ((o ≡ opcode_continuation) × (u ≡ t) × (1 ≤ t)))
  unfolding is_valid_opcode
  fragment-opcode u kind known = ground arith
