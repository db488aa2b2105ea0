-- ===== src/Base/Names.antt =====
-- Sets of names: the keys of a Go map.
use mathlib.Core.Path.{◌≡◌, refl, ap, ◌∙◌, sym}
use mathlib.Core.Logic.{inl, inr}
use mathlib.Core.Bool.{Bool, true, false}
use mathlib.Core.List.{List, [], ◌∷◌}
use mathlib.Core.Option.{Option, none, some}
use native.Mathlib.Omega.{arith}
use sio.Base.Tests.{if◌then◌else◌, if-false, Bool-cases, ◌==◌}
use sio.Base.Lists.{length}
use sio.Base.Text.{Text, text_eq, text_eq_iff, text_key}
use sio.Base.Dict.{lookup, insert, erase, lookup-insert, lookup-erase}

abbrev pub Names : Type 0
Names = List (Text × Unit {0})

abbrev pub is_in : {A : Type 0} → Option A → Bool
is_in none = false
is_in (some u) = true

pub is_in-if :
    {A : Type 0} (b : Bool) (x y : Option A)
    → is_in (if b then x else y) ≡ (if b then is_in x else is_in y)
is_in-if true x y = refl
is_in-if false x y = refl

pub nothing-in : (m : Names) (id : Text) → (length m == 0) ≡ true → is_in (lookup id m) ≡ false
unfolding lookup
nothing-in [] id e = refl
nothing-in (u ∷ m) id e = absurd (ground arith)

-- Each name stands there once.
abbrev pub IsDistinct : Names → Type 0
IsDistinct [] = Unit {0}
IsDistinct ((id, u) ∷ m) = (lookup id m ≡ none) × IsDistinct m

pub insert-IsDistinct : (id : Text) (m : Names) → IsDistinct m → IsDistinct (insert id tt m)
unfolding insert lookup text_eq
insert-IsDistinct id [] d = (refl, tt)
insert-IsDistinct id ((i, u) ∷ m) (once, d) = elim (Bool-cases (text_eq i id)) [
  | inl e ↦ rw e (ap (λ k. lookup k m) (sym ((text_eq_iff i id).0 e)) ∙ once, d)
  | inr e ↦ rw e (
    lookup-insert id i tt m ∙ if-false (text_eq id i) (some tt) (lookup i m) (apart e) ∙ once,
    insert-IsDistinct id m d,
  )
]
  where
    apart : text_eq i id ≡ false → text_eq id i ≡ false
    apart e = ground (arith, text_eq_iff i id, text_eq_iff id i)

pub erase-IsDistinct : (id : Text) (m : Names) → IsDistinct m → IsDistinct (erase id m)
unfolding erase text_eq
erase-IsDistinct id [] d = tt
erase-IsDistinct id ((i, u) ∷ m) (once, d) = elim (Bool-cases (text_eq i id)) [
  | inl e ↦ rw e (erase-IsDistinct id m d)
  | inr e ↦ rw e (gone (text_eq id i) (lookup-erase id i m), erase-IsDistinct id m d)
]
  where
    gone :
        (b : Bool)
        → lookup i (erase id m) ≡ (if b then none else lookup i m)
        → lookup i (erase id m) ≡ none
    gone true e = e
    gone false e = e ∙ once
