-- ===== src/Base/Bits.antt =====
-- The bit operations on bytes as arithmetic: each law is a table checked by evaluation.
use Prim.Native.Nat.{ℕ, zero, suc, ◌+◌, ◌*◌, ◌/◌, ◌%◌, ◌-◌, ◌<◌, ◌≤◌, bit_and, bit_or, bit_xor}
use mathlib.Core.Path.{◌≡◌, refl, ap}
use mathlib.Core.Logic.{◌⊎◌, inl, inr}
use mathlib.Core.Bool.{Bool, true, ◌&&◌}
use native.Mathlib.Omega.{arith}
use sio.Base.Tests.{◌==◌, ==_iff, ltb}

abbrev pub IsByte : ℕ → Type 0
IsByte b = b < 256

-- Whether `p` holds of the `n` numbers from `i` on.
holds_from : ℕ → ℕ → (ℕ → Bool) → Bool
holds_from i zero p = true
holds_from i (suc n) p = p i && holds_from (suc i) n p

holds_at : (n i k : ℕ) (p : ℕ → Bool) → holds_from i n p ≡ true → i ≤ k → k < i + n → p k ≡ true
unfolding holds_from
holds_at zero i k p h below above = absurd (omega arith)
holds_at (suc n) i k p h below above = elim (same_or_later i k below) [
  | inl same ↦ ground (arith, ap p same)
  | inr later ↦ holds_at n (suc i) k p (ground arith) later (omega arith)
]
  where
    same_or_later : (a b : ℕ) → a ≤ b → (a ≡ b) ⊎ (suc a ≤ b)
    same_or_later a b le = ground arith

-- Two functions that agree on all bytes.
agree : (f g : ℕ → ℕ) → holds_from 0 256 (λ x. f x == g x) ≡ true → (x : ℕ) → IsByte x → f x ≡ g x
agree f g h x b = (==_iff _ _).0 (holds_at 256 0 x _ h (omega arith) b)

pub and_0f : (b : ℕ) → IsByte b → bit_and b 0x0F ≡ b % 16
unfolding holds_from
and_0f = agree _ _ refl

pub and_7f : (b : ℕ) → IsByte b → bit_and b 0x7F ≡ b % 128
unfolding holds_from
and_7f = agree _ _ refl

pub and_80 : (b : ℕ) → IsByte b → bit_and b 0x80 ≡ b / 128 * 128
unfolding holds_from
and_80 = agree _ _ refl

pub and_40 : (b : ℕ) → IsByte b → bit_and b 0x40 ≡ b / 64 % 2 * 64
unfolding holds_from
and_40 = agree _ _ refl

pub and_20 : (b : ℕ) → IsByte b → bit_and b 0x20 ≡ b / 32 % 2 * 32
unfolding holds_from
and_20 = agree _ _ refl

pub and_10 : (b : ℕ) → IsByte b → bit_and b 0x10 ≡ b / 16 % 2 * 16
unfolding holds_from
and_10 = agree _ _ refl

-- Setting a bit adds it where it is clear.
pub or_80 : (b : ℕ) → IsByte b → bit_or b 0x80 ≡ b % 128 + 128
unfolding holds_from
or_80 = agree _ _ refl

pub or_40 : (b : ℕ) → IsByte b → bit_or b 0x40 ≡ b + (1 - b / 64 % 2) * 64
unfolding holds_from
or_40 = agree _ _ refl

pub or_20 : (b : ℕ) → IsByte b → bit_or b 0x20 ≡ b + (1 - b / 32 % 2) * 32
unfolding holds_from
or_20 = agree _ _ refl

pub or_10 : (b : ℕ) → IsByte b → bit_or b 0x10 ≡ b + (1 - b / 16 % 2) * 16
unfolding holds_from
or_10 = agree _ _ refl

-- A mask applied twice is undone.
xor_row : ℕ → Bool
xor_row k = holds_from 0 256 (λ b. (bit_xor (bit_xor b k) k == b) && ltb (bit_xor b k) 256)

xor_table : holds_from 0 256 xor_row ≡ true
unfolding holds_from xor_row
xor_table = refl

xor_entry :
    (b k : ℕ)
    → IsByte b
    → IsByte k
    → ((bit_xor (bit_xor b k) k == b) && ltb (bit_xor b k) 256) ≡ true
unfolding xor_row
xor_entry b k hb hk =
    holds_at 256 0 b _ (holds_at 256 0 k xor_row xor_table (omega arith) hk) (omega arith) hb

pub xor_twice : (b k : ℕ) → IsByte b → IsByte k → bit_xor (bit_xor b k) k ≡ b
xor_twice b k hb hk = ground (arith, xor_entry b k)

pub xor-IsByte : (b k : ℕ) → IsByte b → IsByte k → IsByte (bit_xor b k)
xor-IsByte b k hb hk = ground (arith, xor_entry b k)
