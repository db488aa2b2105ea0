-- ===== src/Chat/Limiting.antt =====
-- What the rate limiters of the clients let through.
use sio.Base.{
  ℕ, ◌+◌, ◌-◌, ◌<◌, min, ◌≡◌, refl, ap, sym, ◌∙◌, Bool, true, false, ◌&&◌, if◌then◌else◌, if-true,
  if-false, List, [], ◌∷◌, some, leb, arith,
}
use mathlib.Core.Path.{subst}
use sio.Base.Text.{Text, text_eq, text_eq_iff, text_key}
use sio.Base.Dict.{lookup, lookup-insert}
use sio.Chat.Types.{RateLimit}
use sio.Chat.State.{Server}
use sio.Chat.Limits.{refresh, take_one, use_limiter, check_rate_limit}

-- Calls of checkRateLimit, each at a time and for a client.
abbrev pub Calls : Type 0
Calls = List (ℕ × Text)

-- How many of the calls are for a client.
unfoldable pub calls_of : Text → Calls → ℕ
calls_of id [] = 0
calls_of id ((now, who) ∷ calls) =
    let rest = calls_of id calls in if text_eq who id then rest + 1 else rest

-- How many of the calls for a client the server lets through.
unfoldable pub granted : {D : Type 0} → RateLimit → Text → Calls → Server D → ℕ
granted limit id [] s = 0
granted limit id ((now, who) ∷ calls) s =
    let a = check_rate_limit limit now who s in
    let rest = granted limit id calls a.1 in if text_eq who id && a.0 then rest + 1 else rest

-- Whether every call for a client comes before the end of a window.
abbrev pub IsBefore : ℕ → Text → Calls → Type 0
IsBefore end id [] = Unit {0}
IsBefore end id ((now, who) ∷ calls) = (text_eq who id ≡ true → now < end) × IsBefore end id calls

-- A call for a client, as its limiter has it.
call-own :
    {D : Type 0} (limit : RateLimit) (now : ℕ) (who id : Text) (l : RateLimit) (s : Server D)
    → text_eq who id ≡ true
    → lookup id s.rate_limiters ≡ some l
    → now < l.last_reset + l.window_size
    → ((check_rate_limit limit now who s).0 ≡ (take_one l).0)
      × (lookup id (check_rate_limit limit now who s).1.rate_limiters ≡ some (take_one l).1)
unfolding check_rate_limit use_limiter text_eq refresh
call-own limit now who id l s same e h = (
  ap (λ x. x.0) used,
  lookup-insert who id (use_limiter limit now (lookup who s.rate_limiters)).1 s.rate_limiters
      ∙ if-true (text_eq who id) _ (lookup id s.rate_limiters) same
      ∙ ap (λ x. some x.1) used,
)
  where
    lasts : leb (l.last_reset + l.window_size) now ≡ false
    lasts = ground arith

    used : use_limiter limit now (lookup who s.rate_limiters) ≡ take_one l
    used =
        ap (λ k. use_limiter limit now (lookup k s.rate_limiters)) ((text_eq_iff who id).0 same)
        ∙ ap (use_limiter limit now) e
        ∙ ap take_one (if-false (leb (l.last_reset + l.window_size) now) _ l lasts)

call-other :
    {D : Type 0} (limit : RateLimit) (now : ℕ) (who id : Text) (s : Server D)
    → text_eq who id ≡ false
    → lookup id (check_rate_limit limit now who s).1.rate_limiters ≡ lookup id s.rate_limiters
unfolding check_rate_limit text_eq
call-other limit now who id s other =
    lookup-insert who id (use_limiter limit now (lookup who s.rate_limiters)).1 s.rate_limiters
    ∙ if-false (text_eq who id) _ (lookup id s.rate_limiters) other

take_one-end :
    (l : RateLimit)
    → (take_one l).1.last_reset + (take_one l).1.window_size ≡ l.last_reset + l.window_size
unfolding take_one
take_one-end l = by_left (leb l.requests l.current_used)
  where
    by_left :
        (b : Bool)
        → let t : Bool × RateLimit =
            if b then (false, l) else (true, record l { current_used = l.current_used + 1 }) in
          t.1.last_reset + t.1.window_size ≡ l.last_reset + l.window_size
    by_left true = refl
    by_left false = refl

-- One call and those behind it.
count-one :
    (l : RateLimit) (a : Bool) (g n : ℕ)
    → a ≡ (take_one l).0
    → g ≡ min n ((take_one l).1.requests - (take_one l).1.current_used)
    → (if a then g + 1 else g) ≡ min (n + 1) (l.requests - l.current_used)
unfolding take_one
count-one l a g n = by_left (leb l.requests l.current_used) refl
  where
    by_left :
        (b : Bool)
        → leb l.requests l.current_used ≡ b
        → let t : Bool × RateLimit =
            if b then (false, l) else (true, record l { current_used = l.current_used + 1 }) in
          a ≡ t.0
          → g ≡ min n (t.1.requests - t.1.current_used)
          → (if a then g + 1 else g) ≡ min (n + 1) (l.requests - l.current_used)
    by_left true q e h = ground arith
    by_left false q e h = ground arith

-- While the window of a client's limiter lasts, of any number of its calls as many are let through
-- as the limiter has left, or all if they are fewer, however many calls for other clients come
-- between them.
pub granted-window :
    {D : Type 0} (limit : RateLimit) (id : Text) (calls : Calls) (l : RateLimit) (s : Server D)
    → lookup id s.rate_limiters ≡ some l
    → IsBefore (l.last_reset + l.window_size) id calls
    → granted limit id calls s ≡ min (calls_of id calls) (l.requests - l.current_used)
unfolding granted calls_of
granted-window limit id [] l s e h = omega arith
granted-window {D = D} limit id ((now, who) ∷ calls) l s e (h, hs) =
    by_name (text_eq who id) refl (granted-window limit id calls (take_one l).1 a.1)
      (granted-window limit id calls l a.1)
  where
    a : Bool × Server D
    a = check_rate_limit limit now who s

    by_name :
        (b : Bool)
        → text_eq who id ≡ b
        → (lookup id a.1.rate_limiters ≡ some (take_one l).1
            → IsBefore ((take_one l).1.last_reset + (take_one l).1.window_size) id calls
            → granted limit id calls a.1
              ≡ min (calls_of id calls) ((take_one l).1.requests - (take_one l).1.current_used))
        → (lookup id a.1.rate_limiters ≡ some l
            → IsBefore (l.last_reset + l.window_size) id calls
            → granted limit id calls a.1 ≡ min (calls_of id calls) (l.requests - l.current_used))
        → (if b && a.0 then granted limit id calls a.1 + 1 else granted limit id calls a.1)
          ≡ min
              (if b then calls_of id calls + 1 else calls_of id calls)
              (l.requests - l.current_used)
    by_name false other own rest = rest (call-other limit now who id s other ∙ e) hs
    by_name true same own rest =
        let called = call-own limit now who id l s same e (h same) in
        count-one l a.0 (granted limit id calls a.1) (calls_of id calls) called.0
          (own called.1 (subst (λ end. IsBefore end id calls) (sym (take_one-end l)) hs))
