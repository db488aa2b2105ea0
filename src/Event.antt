-- ===== src/Event.antt =====
-- socket.go and server.go: events as messages, `emitData` on the sending side and the search for
-- the event's name in `Server.loop` on the receiving side.
mod Wire
mod Examples
use sio.Base.{ℕ, ◌++◌, ◌==◌, Bool, true, false, if◌then◌else◌, List, [], ◌∷◌, Option, none, some}
use sio.Base.Text.{Text, codes, text_eq, text_key}
use sio.Base.Dict.{lookup, insert, erase}

abbrev pub start_of_header : ℕ
start_of_header = 1

abbrev pub start_of_data : ℕ
start_of_data = 2

-- The message types of the websocket package that the code imports; `typeJSON`, `typeBin` and
-- `typeStr`.
abbrev text_message : ℕ
text_message = 1

abbrev binary_message : ℕ
binary_message = 2

abbrev pub type_json : Text
type_json = codes "J"

abbrev pub type_bin : Text
type_bin = codes "B"

abbrev pub type_str : Text
type_str = codes "S"

-- A value of `any`, as the type switch of `emitData` sees it: a string, a byte slice, or another
-- value with what json.Marshal makes of it (none where it fails).
pub data Data : Type 0 where
  str : Text → Data
  bin : List ℕ → Data
  other : Option (List ℕ) → Data

-- The message type and the bytes in the buffer when `emitData` returns.
unfoldable pub emit_data : Text → Data → ℕ × List ℕ
emit_data event_name (str d) =
    (text_message, event_name ++ start_of_header ∷ type_str ++ start_of_data ∷ d)
emit_data event_name (bin d) =
    (binary_message, event_name ++ start_of_header ∷ type_bin ++ start_of_data ∷ d)
emit_data event_name (other none) =
    (text_message, event_name ++ start_of_header ∷ type_json ++ start_of_data ∷ [])
emit_data event_name (other (some d)) =
    (text_message, event_name ++ start_of_header ∷ type_json ++ start_of_data ∷ d)

-- The loop of `loop` over the bytes of a message: what stands before the first STX and behind it.
-- Without an STX the name is empty and the content is the whole message.
unfoldable pub find_start : List ℕ → Option (Text × List ℕ)
find_start [] = none
find_start (b ∷ bs) =
    let rest = find_start bs in
    if b == start_of_data
    then some ([], bs)
    else elim rest [ some (name, content) ↦ some (b ∷ name, content) | none ↦ none ]

abbrev pub or_unnamed : List ℕ → Option (Text × List ℕ) → Text × List ℕ
or_unnamed msg none = ([], msg)
or_unnamed msg (some found) = found

unfoldable pub split_event : List ℕ → Text × List ℕ
split_event msg = or_unnamed msg (find_start msg)

-- The handler of an event that was found, and what it is called with.
abbrev pub with_content {ℓ} : {H : Type ℓ} → List ℕ → Option H → Option (H × List ℕ)
with_content content none = none
with_content content (some handler) = some (handler, content)

abbrev pub find_handler {ℓ} : {H : Type ℓ} → List (Text × H) → Text × List ℕ → Option (H × List ℕ)
find_handler events (name, content) =
    if text_eq name [] then none else with_content content (lookup name events)

-- What a round of `loop` does with a message: the handler that it calls, with the content.
unfoldable pub dispatch_event {ℓ} : {H : Type ℓ} → List (Text × H) → List ℕ → Option (H × List ℕ)
dispatch_event events msg = find_handler events (split_event msg)

-- `On` and `Off`.
unfoldable pub on {ℓ} : {H : Type ℓ} → Text → H → List (Text × H) → List (Text × H)
on name handler events = insert name handler events

unfoldable pub off {ℓ} : {H : Type ℓ} → Text → List (Text × H) → List (Text × H)
off name events = erase name events
