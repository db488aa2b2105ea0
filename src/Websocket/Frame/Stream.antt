-- ===== src/Websocket/Frame/Stream.antt =====
-- Two facts about the readers, each proved along the `do` blocks: a reader does not look past
-- what it takes, and it never lengthens the stream.
use sio.Base.{
  not, ltz, bit_and, ℕ, zero, suc, ◌≤◌, ◌≡◌, refl, ◌⊎◌, inl, inr, Bool, true, false, List, [], ◌∷◌,
  ◌++◌, length, take, drop, ltb, ◌==◌, Bool-cases, ℤ, pos, negsuc, arith, length-append, le→ltb,
}
use sio.Websocket.Types.{
  Frame, invalid_opcode, invalid_frame, message_too_large, flag_mask, Error, Result, ok, err, stuck,
  eof, unexpected_eof,
}
use sio.Websocket.Frame.{
  Reader, and_then, ◌>>=◌, return, guard, read_full, read_length, read_mask_key, read_payload,
  read_after_header, read_frame, has_flag, is_valid_opcode, mask_allowed,
}

-- The errors that more input could mend.
abbrev pub IsEnd : Error → Type 0
IsEnd e = (e ≡ eof) ⊎ (e ≡ unexpected_eof)

-- How an answer relates to the answer with `more` added behind the stream.
abbrev pub Carries : {A : Type 0} → Result A × List ℕ → Result A × List ℕ → List ℕ → Type 0
Carries (ok a, r) q more = q ≡ (ok a, r ++ more)
Carries (err e, r) q more = IsEnd e ⊎ (q ≡ (err e, r ++ more))
Carries (stuck, r) q more = q ≡ (stuck, r ++ more)

abbrev IsSteady : {A : Type 0} → Reader A → Type 0
IsSteady m = (s more : List ℕ) → Carries (m s) (m (s ++ more)) more

bind-Carries :
    {A B : Type 0} (f : A → Reader B) (p q : Result A × List ℕ) (more : List ℕ)
    → ((a : A) → IsSteady (f a))
    → Carries p q more
    → Carries (and_then p f) (and_then q f) more
bind-Carries f (ok a, r) q more h c = rw c (h a r more)
bind-Carries f (err e, r) q more h (inl i) = inl i
bind-Carries f (err e, r) q more h (inr c) = inr (rw c)
bind-Carries f (stuck, r) q more h c = rw c

bind-IsSteady :
    {A B : Type 0} (m : Reader A) (f : A → Reader B)
    → IsSteady m
    → ((a : A) → IsSteady (f a))
    → IsSteady (m >>= f)
bind-IsSteady m f hm hf s more = bind-Carries f (m s) (m (s ++ more)) more hf (hm s more)

return-IsSteady : {A : Type 0} (a : A) → IsSteady (return a)
return-IsSteady a s more = refl

guard-IsSteady : (b : Bool) (e : Error) → IsSteady (guard b e)
guard-IsSteady true e s more = refl
guard-IsSteady false e s more = inr refl

take-append : (n : ℕ) (s more : List ℕ) → n ≤ length s → take n (s ++ more) ≡ take n s
take-append zero s more h = refl
take-append (suc n) [] more h = absurd (omega arith)
take-append (suc n) (x ∷ s) more h = ground (arith, take-append n s more)

drop-append : (n : ℕ) (s more : List ℕ) → n ≤ length s → drop n (s ++ more) ≡ drop n s ++ more
drop-append zero s more h = refl
drop-append (suc n) [] more h = absurd (omega arith)
drop-append (suc n) (x ∷ s) more h = drop-append n s more (omega arith)

read_full-IsSteady : (n : ℕ) → IsSteady (read_full n)
unfolding read_full
read_full-IsSteady n s more = elim (Bool-cases (ltb (length s) n)) [
  | inl short ↦ rw short (elim (Bool-cases (length s == 0)) [
    | inl empty ↦ rw empty (inl (inl refl))
    | inr part ↦ rw part (inl (inr refl))
  ])
  | inr enough ↦
      let h : n ≤ length s = ground arith in
      rw (
        enough,
        le→ltb (length (s ++ more)) n (omega (arith, length-append s more)),
        take-append n s more h,
        drop-append n s more h,
      )
]

read_length-IsSteady : (n : ℕ) → IsSteady (read_length n)
unfolding read_length
read_length-IsSteady n = elim (Bool-cases (n == 126)) [
  | inl two ↦ rw two (bind-IsSteady (read_full 2) _ (read_full-IsSteady 2) (λ b. return-IsSteady _))
  | inr other ↦ elim (Bool-cases (n == 127)) [
    | inl eight ↦
        rw (other, eight)
          (bind-IsSteady (read_full 8) _ (read_full-IsSteady 8) (λ b. return-IsSteady _))
    | inr plain ↦ rw (other, plain) (return-IsSteady (pos n))
  ]
]

read_mask_key-IsSteady : (masked : Bool) → IsSteady (read_mask_key masked)
read_mask_key-IsSteady true = read_full-IsSteady 4
read_mask_key-IsSteady false = return-IsSteady []

read_payload-IsSteady :
    (n : ℤ) (masked : Bool) (key : List ℕ) → IsSteady (read_payload n masked key)
unfolding read_payload
read_payload-IsSteady (pos zero) masked key = return-IsSteady []
read_payload-IsSteady (pos (suc n)) masked key =
    bind-IsSteady (read_full (suc n)) _ (read_full-IsSteady (suc n)) (λ p. return-IsSteady _)
read_payload-IsSteady (negsuc n) masked key = return-IsSteady []

read_after_header-IsSteady :
    (server client : Bool) (max_frame_size : ℤ) (h0 h1 : ℕ)
    → IsSteady (read_after_header server client max_frame_size h0 h1)
unfolding read_after_header
read_after_header-IsSteady server client max_frame_size h0 h1 =
    let masked = has_flag h1 flag_mask in
    let valid = is_valid_opcode (bit_and h0 0x0F) in
    let allowed = mask_allowed server client masked in
    bind-IsSteady {B = Frame} (guard valid invalid_opcode) _ (guard-IsSteady valid _) λ _.
      bind-IsSteady {B = Frame} (guard allowed invalid_frame) _ (guard-IsSteady allowed _) λ _.
        bind-IsSteady {B = Frame} (read_length (bit_and h1 0x7F)) _ (read_length-IsSteady _) λ n.
          let fits = not (ltz max_frame_size n) in
          bind-IsSteady {B = Frame} (guard fits message_too_large) _ (guard-IsSteady fits _) λ _.
            bind-IsSteady {B = Frame} (read_mask_key masked) _ (read_mask_key-IsSteady masked)
              λ key.
                bind-IsSteady {B = Frame} (read_payload n masked key) _
                  (read_payload-IsSteady n masked key) λ payload s more. refl

-- `readFrame` answers the same with more input behind the stream, unless the stream ended in the
-- middle of a frame.
pub read_frame-IsSteady :
    (server client : Bool) (max_frame_size : ℤ) → IsSteady (read_frame server client max_frame_size)
unfolding read_frame
read_frame-IsSteady server client max_frame_size =
    bind-IsSteady {B = Frame} (read_full 2) _ (read_full-IsSteady 2)
      λ header. read_after_header-IsSteady server client max_frame_size _ _
