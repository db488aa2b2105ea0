-- ===== src/Base/Text.antt =====
-- Go strings as lists of bytes, with what the code uses of the package strings. Case and white
-- space are those of ASCII.
use Prim.Native.Nat.{ℕ, ◌+◌}
use Prim.Native.Char.{code}
use Prim.Native.String.{String}
use mathlib.Core.Path.{◌≡◌, refl}
use mathlib.Core.Logic.{◌↔◌}
use mathlib.Core.Bool.{Bool, true, false, ◌&&◌, ◌||◌}
use mathlib.Core.List.{List, [], ◌∷◌, map, reverse}
use native.Mathlib.Omega.{arith}
use sio.Base.Tests.{leb, ◌==◌, if◌then◌else◌}
use sio.Base.Eq.{Eq}

abbrev pub Text : Type 0
Text = List ℕ

-- The bytes of a literal in ASCII.
abbrev pub codes : String → Text
codes String.[] = []
codes (String.◌∷◌ c s) = code c ∷ codes s

unfoldable pub text_eq : Text → Text → Bool
text_eq [] [] = true
text_eq [] (b ∷ bs) = false
text_eq (a ∷ as') [] = false
text_eq (a ∷ as') (b ∷ bs) = a == b && text_eq as' bs

pub text_eq_iff : (s t : Text) → (text_eq s t ≡ true) ↔ (s ≡ t)
unfolding text_eq
text_eq_iff [] [] = (λ e. refl, λ e. refl)
text_eq_iff [] (b ∷ bs) = (λ e. cc, λ e. cc)
text_eq_iff (a ∷ as') [] = (λ e. cc, λ e. cc)
text_eq_iff (a ∷ as') (b ∷ bs) =
    let rest = text_eq_iff as' bs in (λ e. ground (arith, rest.0), λ e. ground (arith, rest.1))

instance abbrev pub text_key : Eq Text
unfolding text_eq
text_key = record { beq = text_eq; beq_iff = text_eq_iff }

unfoldable pub is_prefix : Text → Text → Bool
is_prefix [] s = true
is_prefix (p ∷ ps) [] = false
is_prefix (p ∷ ps) (c ∷ cs) = p == c && is_prefix ps cs

-- strings.Contains(s, sub)
unfoldable pub contains : Text → Text → Bool
unfolding is_prefix
contains [] sub = is_prefix sub []
contains (c ∷ cs) sub = is_prefix sub (c ∷ cs) || contains cs sub

-- strings.HasPrefix(s, prefix)
unfoldable pub has_prefix : Text → Text → Bool
unfolding is_prefix
has_prefix s p = is_prefix p s

pub lower : ℕ → ℕ
lower c = if leb b'A' c && leb c b'Z' then c + 32 else c

-- strings.ToLower(s)
unfoldable pub to_lower : Text → Text
unfolding lower
to_lower = map lower

-- strings.Split(s, sep) for a separator of one byte.
unfoldable pub cons_head : ℕ → List Text → List Text
cons_head c [] = (c ∷ []) ∷ []
cons_head c (w ∷ ws) = (c ∷ w) ∷ ws

unfoldable pub split : ℕ → Text → List Text
unfolding cons_head
split sep [] = [] ∷ []
split sep (c ∷ cs) = if c == sep then [] ∷ split sep cs else cons_head c (split sep cs)

is_space : ℕ → Bool
is_space c = c == 32 || (leb 9 c && leb c 13)

trim_left : Text → Text
unfolding is_space
trim_left [] = []
trim_left (c ∷ cs) = if is_space c then trim_left cs else c ∷ cs

-- strings.TrimSpace(s)
unfoldable pub trim_space : Text → Text
unfolding trim_left
trim_space s = reverse (trim_left (reverse (trim_left s)))
