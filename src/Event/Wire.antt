-- ===== src/Event/Wire.antt =====
-- What `Server.loop` finds in a message.
use sio.Base.{
  ℕ, ◌≡◌, ◌≢◌, refl, ap, sym, ◌∙◌, if◌then◌else◌, Bool, true, false, ne→==, if-false, List, [], ◌∷◌,
  ◌++◌, if-true, Option, none, some, arith,
}
use sio.Base.Text.{Text, text_eq, text_eq_iff, text_key}
use sio.Base.Dict.{lookup, insert, erase, lookup-insert, lookup-erase}
use sio.Event.{
  str, bin, other, emit_data, find_start, split_event, or_unnamed, with_content, find_handler,
  dispatch_event, on, off, start_of_header, start_of_data, type_str, type_bin, type_json,
}

-- A name that holds no STX.
abbrev pub IsName : Text → Type 0
IsName [] = Unit {0}
IsName (b ∷ bs) = (b ≢ start_of_data) × IsName bs

find_start-name :
    (name : Text) (content : List ℕ)
    → IsName name
    → find_start (name ++ start_of_data ∷ content) ≡ some (name, content)
unfolding find_start
find_start-name [] content h = refl
find_start-name (b ∷ name) content (ne, h) =
    rw (ne→== b start_of_data ne, find_start-name name content h) refl

-- The name is what stands before the first STX of a message, the content all that follows it: a
-- client's event is taken apart as it was put together, whatever the content holds.
pub split_event_name :
    (name : Text) (content : List ℕ)
    → IsName name
    → split_event (name ++ start_of_data ∷ content) ≡ (name, content)
unfolding split_event
split_event_name name content h =
    ap (or_unnamed (name ++ start_of_data ∷ content)) (find_start-name name content h)

append-IsName : (s t : Text) → IsName s → IsName t → IsName (s ++ t)
append-IsName [] t h k = k
append-IsName (b ∷ s) t (ne, h) k = (ne, append-IsName s t h k)

-- An event that `emit_data` made, read by `loop`: the name that is found is the event's with SOH
-- and the letter of the data's type behind it, and the content is the data.
pub split_event-emit_data :
    (name : Text) (d : List ℕ)
    → IsName name
    → (split_event (emit_data name (str d)).1 ≡ (name ++ start_of_header ∷ type_str, d))
      × (split_event (emit_data name (bin d)).1 ≡ (name ++ start_of_header ∷ type_bin, d))
      × (split_event (emit_data name (other (some d))).1 ≡ (name ++ start_of_header ∷ type_json, d))
unfolding emit_data
split_event-emit_data name d h = (
  tagged type_str (λ e. absurd (omega (arith, e)), tt),
  tagged type_bin (λ e. absurd (omega (arith, e)), tt),
  tagged type_json (λ e. absurd (omega (arith, e)), tt),
)
  where
    tagged :
        (letter : Text)
        → IsName letter
        → split_event (name ++ start_of_header ∷ letter ++ start_of_data ∷ d)
          ≡ (name ++ start_of_header ∷ letter, d)
    tagged letter ok =
        split_event_name (name ++ start_of_header ∷ letter) d
          (append-IsName name (start_of_header ∷ letter) h (λ e. absurd (omega (arith, e)), ok))

text_eq_refl : (t : Text) → text_eq t t ≡ true
text_eq_refl t = (text_eq_iff t t).1 refl

-- A handler registered with `On` under a name that is not empty and holds no STX is called with the
-- content of every event of its name, and not after `Off`; the events of any other name without STX
-- are handled as they were before `On` and `Off`.
pub dispatch_event-on {ℓ} :
    {H : Type ℓ} (name another : Text) (handler : H) (events : List (Text × H)) (content : List ℕ)
    → IsName name
    → name ≢ []
    → IsName another
    → text_eq name another ≡ false
    → (dispatch_event (on name handler events) (name ++ start_of_data ∷ content)
        ≡ some (handler, content))
      × (dispatch_event (off name events) (name ++ start_of_data ∷ content) ≡ none)
      × (dispatch_event (on name handler events) (another ++ start_of_data ∷ content)
          ≡ dispatch_event events (another ++ start_of_data ∷ content))
      × (dispatch_event (off name events) (another ++ start_of_data ∷ content)
          ≡ dispatch_event events (another ++ start_of_data ∷ content))
unfolding dispatch_event on off text_eq
dispatch_event-on {H = H} name another handler events content h ne k apart = (
  called (insert name handler events) (some handler) found,
  called (erase name events) none gone,
  same (insert name handler events)
      (lookup-insert name another handler events ∙ if-false (text_eq name another) _ _ apart),
  same (erase name events)
      (lookup-erase name another events ∙ if-false (text_eq name another) _ _ apart),
)
  where
    named : (b : Bool) → text_eq name [] ≡ b → text_eq name [] ≡ false
    named true e = absurd (ne ((text_eq_iff name []).0 e))
    named false e = e

    called :
        (registered : List (Text × H)) (o : Option H)
        → lookup name registered ≡ o
        → dispatch_event registered (name ++ start_of_data ∷ content) ≡ with_content content o
    called registered o e =
        ap (find_handler registered) (split_event_name name content h)
        ∙ if-false (text_eq name []) none (with_content content (lookup name registered))
            (named (text_eq name []) refl)
        ∙ ap (with_content content) e

    same :
        (registered : List (Text × H))
        → lookup another registered ≡ lookup another events
        → dispatch_event registered (another ++ start_of_data ∷ content)
          ≡ dispatch_event events (another ++ start_of_data ∷ content)
    same registered e =
        ap (find_handler registered) (split_event_name another content k)
        ∙ ap (λ o. if text_eq another [] then none else with_content content o) e
        ∙ sym (ap (find_handler events) (split_event_name another content k))

    found : lookup name (insert name handler events) ≡ some handler
    found =
        lookup-insert name name handler events
        ∙ if-true (text_eq name name) (some handler) (lookup name events) (text_eq_refl name)

    gone : lookup name (erase name events) ≡ none
    gone =
        lookup-erase name name events
        ∙ if-true (text_eq name name) none (lookup name events) (text_eq_refl name)
