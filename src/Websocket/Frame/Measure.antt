-- ===== src/Websocket/Frame/Measure.antt =====
-- Every reader answers, and none lengthens the stream; `readFrame` takes two bytes at least.
use sio.Base.{
  ℕ, zero, suc, ◌+◌, ◌-◌, ◌≤◌, ◌≡◌, refl, ◌⊎◌, inl, inr, Bool, true, false, not, List, length, ltb,
  ◌==◌, Bool-cases, ℤ, pos, negsuc, ltz, bit_and, get_or, length-drop, arith,
}
use sio.Websocket.Types.{
  Error, Result, ok, err, stuck, Frame, flag_mask, invalid_opcode, invalid_frame, message_too_large,
}
use sio.Websocket.Frame.{
  Reader, and_then, ◌>>=◌, return, guard, read_full, read_length, read_mask_key, read_payload,
  read_after_header, read_frame, has_flag, is_valid_opcode, mask_allowed,
}
use sio.Websocket.Frame.Inverse.{read_full_ok}

abbrev Within : {A : Type 0} → Result A × List ℕ → ℕ → Type 0
Within (ok a, r) n = length r ≤ n
Within (err e, r) n = length r ≤ n
Within (stuck, r) n = ⊥

abbrev Shrinks : {A : Type 0} → Reader A → Type 0
Shrinks m = (s : List ℕ) → Within (m s) (length s)

Within-le : {A : Type 0} (p : Result A × List ℕ) (m n : ℕ) → m ≤ n → Within p m → Within p n
Within-le (ok a, r) m n h w = omega arith
Within-le (err e, r) m n h w = omega arith
Within-le (stuck, r) m n h w = w

then-Within :
    {A B : Type 0} (p : Result A × List ℕ) (f : A → Reader B) (n : ℕ)
    → Within p n
    → ((a : A) → Shrinks (f a))
    → Within (and_then p f) n
then-Within (ok a, r) f n w h = Within-le (f a r) (length r) n w (h a r)
then-Within (err e, r) f n w h = w
then-Within (stuck, r) f n w h = w

bind-Shrinks :
    {A B : Type 0} (m : Reader A) (f : A → Reader B)
    → Shrinks m
    → ((a : A) → Shrinks (f a))
    → Shrinks (m >>= f)
bind-Shrinks m f hm hf s = then-Within (m s) f (length s) (hm s) hf

return-Shrinks : {A : Type 0} (a : A) → Shrinks (return a)
return-Shrinks a s = omega arith

guard-Shrinks : (b : Bool) (e : Error) → Shrinks (guard b e)
guard-Shrinks true e s = omega arith
guard-Shrinks false e s = omega arith

read_full-Within : (n : ℕ) (s : List ℕ) → Within (read_full n s) (length s - n)
unfolding read_full
read_full-Within n s = elim (Bool-cases (ltb (length s) n)) [
  | inl short ↦ rw short (omega arith)
  | inr enough ↦ rw enough (omega (arith, length-drop n s))
]

read_full-Shrinks : (n : ℕ) → Shrinks (read_full n)
read_full-Shrinks n s =
    Within-le (read_full n s) (length s - n) (length s) (omega arith) (read_full-Within n s)

read_length-Shrinks : (n : ℕ) → Shrinks (read_length n)
unfolding read_length
read_length-Shrinks n s = elim (Bool-cases (n == 126)) [
  | inl two ↦ rw two (
      then-Within {B = ℤ} (read_full 2 s) _ (length s) (read_full-Shrinks 2 s) (λ b t. omega arith))
  | inr other ↦ elim (Bool-cases (n == 127)) [
    | inl eight ↦
        rw (other, eight)
          (then-Within {B = ℤ} (read_full 8 s) _ (length s) (read_full-Shrinks 8 s)
            (λ b t. omega arith))
    | inr plain ↦ rw (other, plain) (omega arith)
  ]
]

read_mask_key-Shrinks : (masked : Bool) → Shrinks (read_mask_key masked)
read_mask_key-Shrinks true s = read_full-Shrinks 4 s
read_mask_key-Shrinks false s = omega arith

read_payload-Shrinks : (n : ℤ) (masked : Bool) (key : List ℕ) → Shrinks (read_payload n masked key)
unfolding read_payload
read_payload-Shrinks (pos zero) masked key s = omega arith
read_payload-Shrinks (pos (suc n)) masked key s =
    then-Within {B = List ℕ} (read_full (suc n) s) _ (length s) (read_full-Shrinks (suc n) s)
      (λ p t. omega arith)
read_payload-Shrinks (negsuc n) masked key s = omega arith

read_after_header-Shrinks :
    (server client : Bool) (max_frame_size : ℤ) (h0 h1 : ℕ)
    → Shrinks (read_after_header server client max_frame_size h0 h1)
unfolding read_after_header
read_after_header-Shrinks server client max_frame_size h0 h1 =
    let masked = has_flag h1 flag_mask in
    let valid = is_valid_opcode (bit_and h0 0x0F) in
    let allowed = mask_allowed server client masked in
    bind-Shrinks {B = Frame} (guard valid invalid_opcode) _ (guard-Shrinks valid _) λ _.
      bind-Shrinks {B = Frame} (guard allowed invalid_frame) _ (guard-Shrinks allowed _) λ _.
        bind-Shrinks {B = Frame} (read_length (bit_and h1 0x7F)) _ (read_length-Shrinks _) λ n.
          let fits = not (ltz max_frame_size n) in
          bind-Shrinks {B = Frame} (guard fits message_too_large) _ (guard-Shrinks fits _) λ _.
            bind-Shrinks {B = Frame} (read_mask_key masked) _ (read_mask_key-Shrinks masked) λ key.
              bind-Shrinks {B = Frame} (read_payload n masked key) _
                (read_payload-Shrinks n masked key) λ payload s. omega arith

-- A frame, and a stream that is shorter by two bytes at least; or an error.
abbrev FrameCases : Result Frame × List ℕ → List ℕ → Type 0
FrameCases p s =
    ((f : Frame) × (r : List ℕ) × (p ≡ (ok f, r)) × (length r + 2 ≤ length s))
    ⊎ ((e : Error) × (r : List ℕ) × (p ≡ (err e, r)))

split :
    (p : Result Frame × List ℕ) (n : ℕ) (s : List ℕ)
    → n + 2 ≤ length s
    → Within p n
    → FrameCases p s
split (ok f, r) n s h w = inl (f, r, refl, omega arith)
split (err e, r) n s h w = inr (e, r, refl)
split (stuck, r) n s h w = absurd w

header_cases :
    (p : Result (List ℕ) × List ℕ) (f : List ℕ → Reader Frame) (s : List ℕ)
    → ((header t : List ℕ) → p ≡ (ok header, t) → length t + 2 ≤ length s)
    → ((header : List ℕ) → Shrinks (f header))
    → Within p (length s)
    → FrameCases (and_then p f) s
header_cases (ok header, t) f s h hf w =
    split (f header t) (length t) s (h header t refl) (hf header t)
header_cases (err e, t) f s h hf w = inr (e, t, refl)
header_cases (stuck, t) f s h hf w = absurd w

pub read_frame_cases :
    (server client : Bool) (max_frame_size : ℤ) (s : List ℕ)
    → FrameCases (read_frame server client max_frame_size s) s
unfolding read_frame
read_frame_cases server client max_frame_size s =
    header_cases (read_full 2 s) _ s
      (λ header t e. let (_, two) = read_full_ok 2 s header t e in omega arith)
      (λ header.
        read_after_header-Shrinks server client max_frame_size (get_or header 0 0)
          (get_or header 1 0))
      (read_full-Shrinks 2 s)
