-- ===== src/Websocket/Frame/Inverse.antt =====
-- What an answer of `readFrame` says of its input.
use sio.Base.{
  ℕ, zero, suc, ◌+◌, ◌≤◌, ◌≡◌, refl, ap, inl, inr, Bool, true, false, not, List, length, ltb, ◌==◌,
  Bool-cases, ℤ, pos, negsuc, ltz, arith, if◌then◌else◌, length-drop, length-take, bit_and, get_or,
}
use sio.Websocket.Types.{
  Error, Result, ok, err, stuck, Frame, flag_mask, invalid_opcode, invalid_frame, message_too_large,
}
use sio.Websocket.Frame.{
  Reader, and_then, guard, return, read_full, read_length, read_mask_key, read_payload, mask_bytes,
  mask_allowed, is_valid_opcode, read_after_header, read_frame, has_flag,
}
use sio.Websocket.Frame.Mask.{length-mask_from}

-- A successful chain of reads, taken apart.
bind_ok :
    {A B : Type 0} (p : Result A × List ℕ) (f : A → Reader B) {b : B} {r : List ℕ}
    → and_then p f ≡ (ok b, r)
    → (a : A) × (t : List ℕ) × (p ≡ (ok a, t)) × (f a t ≡ (ok b, r))
bind_ok (ok a, t) f e = (a, t, refl, e)
bind_ok (err x, t) f e = cc (ap (λ p. p.0) e)
bind_ok (stuck, t) f e = cc (ap (λ p. p.0) e)

guard_ok :
    (b : Bool) (e : Error) (s t : List ℕ) {u : Unit {0}}
    → guard b e s ≡ (ok u, t)
    → (b ≡ true) × (s ≡ t)
guard_ok true e s t h = (refl, ap (λ p. p.1) h)
guard_ok false e s t h = cc (ap (λ p. p.0) h)

pub read_full_ok :
    (n : ℕ) (s b t : List ℕ)
    → read_full n s ≡ (ok b, t)
    → (length b ≡ n) × (length t + n ≡ length s)
unfolding read_full
read_full_ok n s b t h = elim (Bool-cases (ltb (length s) n)) [
  | inl short ↦ cc (short, h)
  | inr enough ↦ ground (arith, length-drop n s, length-take n s)
]

-- The bytes taken by the parts of a frame.
read_length_ok : (n : ℕ) (s t : List ℕ) (v : ℤ) → read_length n s ≡ (ok v, t) → length t ≤ length s
unfolding read_length
read_length_ok n s t v h = elim (Bool-cases (n == 126)) [
  | inl two ↦
      let (b, u, e, k) = bind_ok (read_full 2 s) _ (rw two at h) in
      ground (arith, read_full_ok 2 s b u e, ap (λ (p : Result ℤ × List ℕ). p.1) k)
  | inr other ↦ elim (Bool-cases (n == 127)) [
    | inl eight ↦
        let (b, u, e, k) = bind_ok (read_full 8 s) _ (rw (other, eight) at h) in
        ground (arith, read_full_ok 8 s b u e, ap (λ (p : Result ℤ × List ℕ). p.1) k)
    | inr plain ↦ let e : s ≡ t = ap (λ p. p.1) (rw (other, plain) at h) in ground arith
  ]
]

read_mask_key_ok :
    (masked : Bool) (s t k : List ℕ) → read_mask_key masked s ≡ (ok k, t) → length t ≤ length s
read_mask_key_ok true s t k h = omega (arith, read_full_ok 4 s k t h)
read_mask_key_ok false s t k h = let e : s ≡ t = ap (λ p. p.1) h in ground arith

length-unmask :
    (masked : Bool) (b key : List ℕ) → length (if masked then mask_bytes b key else b) ≡ length b
unfolding mask_bytes
length-unmask true b key = length-mask_from 0 key b
length-unmask false b key = refl

ok_answer : {A : Type 0} {a b : A} {s t : List ℕ} → return a s ≡ (ok b, t) → (a ≡ b) × (s ≡ t)
ok_answer h = (cc (ap (λ p. p.0) h), ap (λ p. p.1) h)

-- The payload has the length that was announced, or is empty for a negative one.
read_payload_ok :
    (v : ℤ) (masked : Bool) (key s t payload : List ℕ) (m : ℕ)
    → ltz (pos m) v ≡ false
    → read_payload v masked key s ≡ (ok payload, t)
    → (length payload ≤ m) × (length t + length payload ≡ length s)
unfolding read_payload
read_payload_ok (pos zero) masked key s t payload m fits h = ground arith
read_payload_ok (pos (suc n)) masked key s t payload m fits h =
    let (b, u, e, k) = bind_ok (read_full (suc n) s) _ h in
    let (len, left) = read_full_ok (suc n) s b u e in
    let (same, end) = ok_answer k in
    ground (arith, len, left, ap length same, ap length end, length-unmask masked b key)
read_payload_ok (negsuc n) masked key s t payload m fits h = ground arith

read_after_header_ok :
    (server client : Bool) (m h0 h1 : ℕ) (s rest : List ℕ) (f : Frame)
    → read_after_header server client (pos m) h0 h1 s ≡ (ok f, rest)
    → (is_valid_opcode f.opcode ≡ true)
      × (mask_allowed server client f.masked ≡ true)
      × (length f.payload ≤ m)
      × (length rest + length f.payload ≤ length s)
unfolding read_after_header
read_after_header_ok server client m h0 h1 s rest f h =
    let masked = has_flag h1 flag_mask in
    let is_valid = is_valid_opcode (bit_and h0 0x0F) in
    let is_allowed = mask_allowed server client masked in
    let (_, s2, e2, r2) = bind_ok (guard is_valid invalid_opcode s) _ h in
    let (valid, t2) = guard_ok is_valid invalid_opcode s s2 e2 in
    let (_, s3, e3, r3) = bind_ok (guard is_allowed invalid_frame s2) _ r2 in
    let (role, t3) = guard_ok is_allowed invalid_frame s2 s3 e3 in
    let (n, s4, e4, r4) = bind_ok (read_length (bit_and h1 0x7F) s3) _ r3 in
    let is_small = not (ltz (pos m) n) in
    let (_, s5, e5, r5) = bind_ok (guard is_small message_too_large s4) _ r4 in
    let (small, t5) = guard_ok is_small message_too_large s4 s5 e5 in
    let (key, s6, e6, r6) = bind_ok (read_mask_key masked s5) _ r5 in
    let (payload, s7, e7, r7) = bind_ok (read_payload n masked key s6) _ r6 in
    let (len, left) = read_payload_ok n masked key s6 s7 payload m (ground arith) e7 in
    let k4 = read_length_ok (bit_and h1 0x7F) s3 s4 n e4 in
    let k6 = read_mask_key_ok masked s5 s6 key e6 in
    let (made, end) = ok_answer r7 in
    let e_len = ap (λ (g : Frame). length g.payload) made in
    rw (← made) (
      valid,
      role,
      len,
      omega (arith, left, k4, k6, ap length t2, ap length t3, ap length t5, ap length end),
    )

-- A frame that `readFrame` returns has a known opcode, is masked as the role wants, and its
-- payload keeps the limit; at least the two header bytes and the payload were taken from the
-- stream.
pub read_frame_ok :
    (server client : Bool) (m : ℕ) (s rest : List ℕ) (f : Frame)
    → read_frame server client (pos m) s ≡ (ok f, rest)
    → (is_valid_opcode f.opcode ≡ true)
      × (mask_allowed server client f.masked ≡ true)
      × (length f.payload ≤ m)
      × (length rest + length f.payload + 2 ≤ length s)
unfolding read_frame
read_frame_ok server client m s rest f h =
    let (header, t, e, r) = bind_ok (read_full 2 s) _ h in
    let (_, two) = read_full_ok 2 s header t e in
    let (valid, role, len, left) =
      read_after_header_ok server client m (get_or header 0 0) (get_or header 1 0) t rest f r in
    (valid, role, len, omega (arith, two, left))
