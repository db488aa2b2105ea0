-- ===== src/Pool/Index.antt =====
-- The bin that `index` finds for a length.
use sio.Base.{
  ℕ, zero, suc, ◌+◌, ◌-◌, ◌*◌, ◌/◌, ◌^◌, ◌≤◌, ◌<◌, ◌≡◌, refl, ap, sym, ◌∙◌, ◌⊎◌, inl, inr, leb,
  if◌then◌else◌, Bool-cases, arith,
}
use native.Mathlib.Nat.{div-lt_iff_lt-mul, div-le_self, mul_assoc}
use sio.Pool.{digits_of, index, steps}

pow_suc : (d : ℕ) → 2 ^ suc d ≡ 2 ^ d * 2
pow_suc d = omega arith

pow_positive : (d : ℕ) → 0 < 2 ^ d
pow_positive zero = omega arith
pow_positive (suc d) = omega (arith, pow_positive d, pow_suc d)

zero_add : (d : ℕ) → 0 + d ≡ d
zero_add d = omega arith

suc_add : (m d : ℕ) → suc m + d ≡ suc (m + d)
suc_add m d = omega arith

pow_add : (m d : ℕ) → 2 ^ (m + d) ≡ 2 ^ d * 2 ^ m
pow_add zero d = omega (arith, ap (λ k. 2 ^ k) (zero_add d))
pow_add (suc m) d =
    ap (λ k. 2 ^ k) (suc_add m d)
    ∙ pow_suc (m + d)
    ∙ ap (λ x. x * 2) (pow_add m d)
    ∙ mul_assoc (2 ^ d) (2 ^ m) 2
    ∙ ap (λ x. 2 ^ d * x) (sym (pow_suc m))

-- Enough rounds count the binary digits.
digits_bound : (fuel n : ℕ) → n ≤ fuel → n < 2 ^ digits_of fuel n
unfolding digits_of
digits_bound zero n h = omega arith
digits_bound (suc fuel) zero h = omega arith
digits_bound (suc fuel) (suc n) h =
    omega (arith, digits_bound fuel (suc n / 2) (omega arith), pow_suc (digits_of fuel (suc n / 2)))

digits_tight : (fuel n : ℕ) → n ≤ fuel → 0 < digits_of fuel n → 2 ^ digits_of fuel n ≤ 2 * n
unfolding digits_of
digits_tight zero n h p = absurd (omega arith)
digits_tight (suc fuel) zero h p = absurd (omega arith)
digits_tight (suc fuel) (suc n) h p =
    by_rest (digits_tight fuel (suc n / 2) (omega arith)) (digits_of fuel (suc n / 2)) refl
  where
    by_rest :
        (0 < digits_of fuel (suc n / 2) → 2 ^ digits_of fuel (suc n / 2) ≤ 2 * (suc n / 2))
        → (d : ℕ) → digits_of fuel (suc n / 2) ≡ d
        → 2 ^ suc d ≤ 2 * suc n
    by_rest rest zero e = omega arith
    by_rest rest (suc d) e =
        omega (arith, ap (λ k. 2 ^ k) e, pow_suc (suc d), rest (omega (arith, e)))

-- The bin of a length is the first whose buffers are long enough, up to the last bin: a request
-- that is larger than that bin's gets the last.
pub index_lem :
    (min_bit_size n : ℕ)
    → let idx = index min_bit_size n in
      (idx < steps) × ((n ≤ 2 ^ (min_bit_size + idx)) ⊎ (idx ≡ 19))
unfolding index
index_lem min_bit_size n = by_size (digits_of n ((n - 1) / 2 ^ min_bit_size)) (
    (div-lt_iff_lt-mul (pow_positive min_bit_size)).0 (
      digits_bound n ((n - 1) / 2 ^ min_bit_size)
        (le_twice (div-le_self (n - 1) (2 ^ min_bit_size)))))
  where
    le_twice : {q : ℕ} → q ≤ n - 1 → q ≤ n
    le_twice h = omega arith

    by_size :
        (d : ℕ)
        → n - 1 < 2 ^ d * 2 ^ min_bit_size
        → let idx = if leb steps d then steps - 1 else d in
          (idx < steps) × ((n ≤ 2 ^ (min_bit_size + idx)) ⊎ (idx ≡ 19))
    by_size d h = elim (Bool-cases (leb steps d)) [
      | inl e ↦ rw e (omega arith, inr refl)
      | inr e ↦ rw e (ground (arith, e), inl (omega (arith, h, pow_add min_bit_size d)))
    ]
