-- ===== src/Chat/Sweeping.antt =====
-- What a tick of the typing indicators leaves.
use sio.Base.{
  ℕ, ◌+◌, leb, not, ◌==◌, ◌≡◌, refl, ap, sym, ◌∙◌, Bool, true, false, if◌then◌else◌, List, [], ◌∷◌,
  ◌++◌, length, arith,
}
use sio.Base.Text.{Text}
use sio.Chat.Platform.{Platform}
use sio.Chat.State.{Server}
use sio.Chat.Typing.{is_stale, still_typing, sweep, cleanup_typing_indicators}

-- Who types where, and since when.
abbrev pub Entry : Type 0
Entry = Text × (Text × ℕ)

abbrev in_this : Text → List (Text × ℕ) → List Entry
in_this room [] = []
in_this room (e ∷ es) = (room, e) ∷ in_this room es

unfoldable pub entries : List (Text × List (Text × ℕ)) → List Entry
entries [] = []
entries ((room, m) ∷ rooms) = in_this room m ++ entries rooms

-- The entries of the last ten seconds, in nanoseconds, the tenth second included.
unfoldable pub recent : ℕ → List Entry → List Entry
recent now [] = []
recent now ((room, (id, last)) ∷ es) =
    let rest = recent now es in
    if leb now (last + 10000000000) then (room, (id, last)) ∷ rest else rest

is_stale_lem : (now last : ℕ) → is_stale now last ≡ not (leb now (last + 10000000000))
is_stale_lem now last = ground arith

recent-append :
    (now : ℕ) (xs ys : List Entry) → recent now (xs ++ ys) ≡ recent now xs ++ recent now ys
unfolding recent
recent-append now [] ys = refl
recent-append now ((room, (id, last)) ∷ xs) ys =
    by_age (leb now (last + 10000000000)) (recent-append now xs ys)
  where
    by_age :
        (b : Bool)
        → recent now (xs ++ ys) ≡ recent now xs ++ recent now ys
        → ◌≡◌ {A = List Entry}
            (if b then (room, (id, last)) ∷ recent now (xs ++ ys) else recent now (xs ++ ys))
            ((if b then (room, (id, last)) ∷ recent now xs else recent now xs) ++ recent now ys)
    by_age true e = ap (λ r. (room, (id, last)) ∷ r) e
    by_age false e = e

recent-in_this :
    (now : ℕ) (room : Text) (m : List (Text × ℕ))
    → in_this room (still_typing now m) ≡ recent now (in_this room m)
unfolding recent still_typing
recent-in_this now room [] = refl
recent-in_this now room ((id, last) ∷ m) =
    by_age (is_stale now last) (leb now (last + 10000000000)) (is_stale_lem now last)
      (recent-in_this now room m)
  where
    by_age :
        (b c : Bool)
        → b ≡ not c
        → in_this room (still_typing now m) ≡ recent now (in_this room m)
        → in_this room (if b then still_typing now m else (id, last) ∷ still_typing now m) ≡ (
            if c
            then (room, (id, last)) ∷ recent now (in_this room m)
            else recent now (in_this room m))
    by_age true false q e = e
    by_age false true q e = ap (λ r. (room, (id, last)) ∷ r) e
    by_age true true q e = absurd cc
    by_age false false q e = absurd cc

sweep-entries :
    (now : ℕ) (m : List (Text × List (Text × ℕ))) → entries (sweep now m) ≡ recent now (entries m)
unfolding entries sweep recent
sweep-entries now [] = refl
sweep-entries now ((room, m) ∷ rooms) =
    by_left (still_typing now m)
    ∙ ap (λ es. es ++ entries (sweep now rooms)) (recent-in_this now room m)
    ∙ ap (λ es. recent now (in_this room m) ++ es) (sweep-entries now rooms)
    ∙ sym (recent-append now (in_this room m) (entries rooms))
  where
    by_left :
        (left : List (Text × ℕ))
        → entries (if length left == 0 then sweep now rooms else (room, left) ∷ sweep now rooms)
          ≡ in_this room left ++ entries (sweep now rooms)
    by_left [] = refl
    by_left (e ∷ left) = by_length (length (e ∷ left) == 0) (ground (arith))
      where
        by_length :
            (b : Bool)
            → b ≡ false
            → entries (if b then sweep now rooms else (room, e ∷ left) ∷ sweep now rooms)
              ≡ in_this room (e ∷ left) ++ entries (sweep now rooms)
        by_length true q = absurd cc
        by_length false q = refl

-- No room of a typing map is empty.
abbrev pub AllTyping : List (Text × List (Text × ℕ)) → Type 0
AllTyping [] = Unit {0}
AllTyping ((room, m) ∷ rooms) = ((length m == 0) ≡ false) × AllTyping rooms

sweep-AllTyping : (now : ℕ) (m : List (Text × List (Text × ℕ))) → AllTyping (sweep now m)
unfolding sweep
sweep-AllTyping now [] = tt
sweep-AllTyping now ((room, m) ∷ rooms) =
    by_left (length (still_typing now m) == 0) refl (sweep-AllTyping now rooms)
  where
    by_left :
        (b : Bool)
        → (length (still_typing now m) == 0) ≡ b
        → AllTyping (sweep now rooms)
        → AllTyping (if b then sweep now rooms else (room, still_typing now m) ∷ sweep now rooms)
    by_left true e h = h
    by_left false e h = (e, h)

-- A tick leaves exactly the typing entries that are at most 10,000,000,000 nanoseconds old, ten
-- seconds, in their order, and no room without one.
pub cleanup_typing_indicators-entries :
    {D : Type 0} (p : Platform D) (now : ℕ) (s : Server D)
    → (entries (cleanup_typing_indicators p now s).typing_clients
        ≡ recent now (entries s.typing_clients))
      × AllTyping (cleanup_typing_indicators p now s).typing_clients
unfolding cleanup_typing_indicators
cleanup_typing_indicators-entries p now s =
    (sweep-entries now s.typing_clients, sweep-AllTyping now s.typing_clients)
