-- ===== src/Hub/Keyed.antt =====
-- Maps of sockets under their ids, and what holds of all maps of rooms.
use sio.Base.{
  some_inj, ◌≡◌, ◌≢◌, refl, ap, ◌∙◌, sym, inl, inr, Bool, true, false, List, [], ◌∷◌, none, some,
  if◌then◌else◌, if-false, Bool-cases, length, arith,
}
use mathlib.Core.Path.{subst}
use sio.Base.Text.{Text, text_eq, text_eq_iff, text_key}
use sio.Base.Dict.{lookup, insert, erase, lookup-insert, lookup-erase}
use sio.Hub.{Handle, Sockets}

-- Every socket stands under its own id, and under that one only.
abbrev pub IsKeyed : Sockets → Type 0
IsKeyed [] = Unit {0}
IsKeyed ((id, s) ∷ m) = (s.id ≡ id) × (lookup id m ≡ none) × IsKeyed m

pub insert-IsKeyed : (s : Handle) (m : Sockets) → IsKeyed m → IsKeyed (insert s.id s m)
unfolding insert lookup text_eq
insert-IsKeyed s [] k = (refl, refl, tt)
insert-IsKeyed s ((id, t) ∷ m) (own, once, k) = elim (Bool-cases (text_eq id s.id)) [
  | inl e ↦ rw e (refl, ap (λ i. lookup i m) (sym ((text_eq_iff id s.id).0 e)) ∙ once, k)
  | inr e ↦ rw e (
    own,
    lookup-insert s.id id s m ∙ if-false (text_eq s.id id) (some s) (lookup id m) (apart e) ∙ once,
    insert-IsKeyed s m k,
  )
]
  where
    apart : text_eq id s.id ≡ false → text_eq s.id id ≡ false
    apart e = ground (arith, text_eq_iff id s.id, text_eq_iff s.id id)

pub erase-IsKeyed : (id : Text) (m : Sockets) → IsKeyed m → IsKeyed (erase id m)
unfolding erase text_eq
erase-IsKeyed id [] k = tt
erase-IsKeyed id ((i, t) ∷ m) (own, once, k) = elim (Bool-cases (text_eq i id)) [
  | inl e ↦ rw e (erase-IsKeyed id m k)
  | inr e ↦ rw e (own, gone (text_eq id i) (lookup-erase id i m), erase-IsKeyed id m k)
]
  where
    gone :
        (b : Bool)
        → lookup i (erase id m) ≡ (if b then none else lookup i m)
        → lookup i (erase id m) ≡ none
    gone true e = e
    gone false e = e ∙ once

pub insert-length : (id : Text) (s : Handle) (m : Sockets) → length (insert id s m) ≢ 0
unfolding insert text_eq
insert-length id s [] = λ e. absurd (omega arith)
insert-length id s ((i, t) ∷ m) = elim (Bool-cases (text_eq i id)) [
  | inl e ↦ rw e (λ q. absurd (omega arith))
  | inr e ↦ rw e (λ q. absurd (omega arith))
]

-- One write to the map of rooms.
abbrev pub AllRooms : (Sockets → Type 0) → List (Text × Sockets) → Type 0
AllRooms P rooms = (name : Text) (m : Sockets) → lookup name rooms ≡ some m → P m

pub insert-AllRooms :
    (P : Sockets → Type 0) (name : Text) (m : Sockets) (rooms : List (Text × Sockets))
    → P m
    → AllRooms P rooms
    → AllRooms P (insert name m rooms)
unfolding text_eq
insert-AllRooms P name m rooms p all room n e =
    by_name (text_eq name room) (sym (lookup-insert name room m rooms) ∙ e)
  where
    by_name : (b : Bool) → (if b then some m else lookup room rooms) ≡ some n → P n
    by_name true q = subst P (some_inj q) p
    by_name false q = all room n q

erase-AllRooms :
    (P : Sockets → Type 0) (name : Text) (rooms : List (Text × Sockets))
    → AllRooms P rooms
    → AllRooms P (erase name rooms)
unfolding text_eq
erase-AllRooms P name rooms all room n e =
    by_name (text_eq name room) (sym (lookup-erase name room rooms) ∙ e)
  where
    by_name : (b : Bool) → (if b then none else lookup room rooms) ≡ some n → P n
    by_name true q = absurd cc
    by_name false q = all room n q

pub insert_twice-AllRooms :
    (P : Sockets → Type 0) (name : Text) (m n : Sockets) (rooms : List (Text × Sockets))
    → P m
    → AllRooms P rooms
    → AllRooms P (insert name m (insert name n rooms))
unfolding text_eq
insert_twice-AllRooms P name m n rooms p all room q e =
    by_name (text_eq name room) refl (sym (lookup-insert name room m (insert name n rooms)) ∙ e)
  where
    by_name :
        (b : Bool)
        → text_eq name room ≡ b
        → (if b then some m else lookup room (insert name n rooms)) ≡ some q
        → P q
    by_name true same e' = subst P (some_inj e') p
    by_name false other e' = all room q (
        sym (if-false (text_eq name room) (some n) (lookup room rooms) other)
        ∙ sym (lookup-insert name room n rooms)
        ∙ e')

pub erase-insert-AllRooms :
    (P : Sockets → Type 0) (name : Text) (n : Sockets) (rooms : List (Text × Sockets))
    → AllRooms P rooms
    → AllRooms P (erase name (insert name n rooms))
unfolding text_eq
erase-insert-AllRooms P name n rooms all room q e =
    by_name (text_eq name room) refl (sym (lookup-erase name room (insert name n rooms)) ∙ e)
  where
    by_name :
        (b : Bool)
        → text_eq name room ≡ b
        → (if b then none else lookup room (insert name n rooms)) ≡ some q
        → P q
    by_name true same e' = absurd cc
    by_name false other e' = all room q (
        sym (if-false (text_eq name room) (some n) (lookup room rooms) other)
        ∙ sym (lookup-insert name room n rooms)
        ∙ e')
