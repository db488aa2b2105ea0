-- ===== src/Event/Examples.antt =====
-- The theorems on events at short ones.
use sio.Base.{ℕ, ◌≡◌, refl, ◌++◌, List, [], ◌∷◌, none, some, arith}
use sio.Base.Text.{Text, codes, text_eq, text_key}
use sio.Base.Dict.{lookup}
use sio.Event.{
  str, bin, other, emit_data, find_start, split_event, dispatch_event, on, off, type_str, type_bin,
  type_json,
}
use sio.Event.Wire.{IsName, split_event-emit_data, dispatch_event-on}

abbrev hi : Text
hi = codes "hi"

hi-IsName : IsName hi
hi-IsName = (λ e. absurd (omega (arith, e)), (λ e. absurd (omega (arith, e)), tt))

abbrev five : ℕ
five = 5

split_event-emit_data_example :
    (split_event (emit_data hi (str (7 ∷ []))).1 ≡ (hi ++ 1 ∷ type_str, 7 ∷ []))
    × (split_event (emit_data hi (bin (7 ∷ []))).1 ≡ (hi ++ 1 ∷ type_bin, 7 ∷ []))
    × (split_event (emit_data hi (other (some (7 ∷ [])))).1 ≡ (hi ++ 1 ∷ type_json, 7 ∷ []))
split_event-emit_data_example = split_event-emit_data hi (7 ∷ []) hi-IsName

abbrev yo : Text
yo = codes "yo"

yo-IsName : IsName yo
yo-IsName = (λ e. absurd (omega (arith, e)), (λ e. absurd (omega (arith, e)), tt))

-- Another event's handler.
abbrev six : List (Text × ℕ)
six = (yo, 6) ∷ []

dispatch_event-on_example :
    (dispatch_event (on hi five six) (hi ++ 2 ∷ 7 ∷ []) ≡ some (five, 7 ∷ []))
    × (dispatch_event (off hi six) (hi ++ 2 ∷ 7 ∷ []) ≡ none)
    × (dispatch_event (on hi five six) (yo ++ 2 ∷ 7 ∷ []) ≡ some (6, 7 ∷ []))
    × (dispatch_event (off hi six) (yo ++ 2 ∷ 7 ∷ []) ≡ some (6, 7 ∷ []))
unfolding text_eq dispatch_event split_event find_start lookup
dispatch_event-on_example =
    dispatch_event-on hi yo five six (7 ∷ []) hi-IsName (λ e. cc) yo-IsName refl
