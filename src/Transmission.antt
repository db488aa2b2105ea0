-- ===== src/Transmission.antt =====
-- adapters/transmission.go: the messages between the servers of a multihome backend.
mod Round
mod Examples
use sio.Base.{
  ℕ, ◌==◌, ℤ, pos, negsuc, Bool, true, false, if◌then◌else◌, List, [], Option, none, some,
}
use sio.Base.Text.{Text, text_eq}
use sio.Event.{Data, str, bin, other}

-- ttErr, ttStr, ttBin, ttJSON
abbrev pub tt_err : ℤ
tt_err = pos 0

abbrev pub tt_str : ℤ
tt_str = pos 1

abbrev pub tt_bin : ℤ
tt_bin = pos 2

abbrev pub tt_json : ℤ
tt_json = pos 3

-- The fields that go over the wire.
pub record Wire : Type 0 where
  pub data_type : ℤ
  pub event_name : Text
  pub room_name : Text
  pub payload : Text
  pub server_name : Text

pub record Transmission : Type 0 where
  pub wire : Wire
  pub content : Data

-- encoding/json on the struct and on a value of any (given as what json.Marshal makes of it), and
-- base64.StdEncoding. None is an error.
pub record Codec : Type 0 where
  pub marshal : Wire → Option (List ℕ)
  pub unmarshal : List ℕ → Wire → Option Wire
  pub value : List ℕ → Option (List ℕ)
  pub encode_to_string : List ℕ → Text
  pub decode_string : Text → Option (List ℕ)

pub data Failure : Type 0 where
  bad_json bad_data_type no_event_name bad_payload bad_value : Failure

unfoldable pub get_data_type : Data → List ℕ × ℤ
get_data_type (str d) = (d, tt_str)
get_data_type (bin d) = (d, tt_bin)
get_data_type (other none) = ([], tt_str)
get_data_type (other (some d)) = (d, tt_json)

-- `toJSON`: the transmission changes, and its wire part is marshalled.
unfoldable pub filled : Codec → Transmission → Transmission
filled k t =
    let (d, kind) = get_data_type t.content in
    record t { wire = record t.wire { payload = k.encode_to_string d; data_type = kind } }

unfoldable pub to_json : Codec → Transmission → Option (List ℕ) × Transmission
to_json k t = (k.marshal (filled k t).wire, filled k t)

abbrev pub with_value : Transmission → Option (List ℕ) → Option Failure × Transmission
with_value t none = (some bad_value, t)
with_value t (some v) = (none, record t { content = other (some v) })

abbrev pub is_kind : ℤ → ℕ → Bool
is_kind (pos n) m = n == m
is_kind (negsuc n) m = false

-- The switch on the data type; a type that none of its cases names leaves the content alone.
abbrev pub with_payload : Codec → Transmission → Option (List ℕ) → Option Failure × Transmission
with_payload k t none = (some bad_payload, t)
with_payload k t (some d) =
    if is_kind t.wire.data_type 1
    then (none, record t { content = str d })
    else if is_kind t.wire.data_type 2
    then (none, record t { content = bin d })
    else if is_kind t.wire.data_type 3
    then with_value t (k.value d)
    else (none, t)

abbrev pub with_wire : Codec → Transmission → Option Wire → Option Failure × Transmission
with_wire k t none = (some bad_json, t)
with_wire k t (some w) =
    let t' = record t { wire = w } in
    if is_kind w.data_type 0
    then (some bad_data_type, t')
    else if text_eq w.event_name []
    then (some no_event_name, t')
    else with_payload k t' (k.decode_string w.payload)

-- `fromJSON` on a transmission: the error, if any.
unfoldable pub from_json : Codec → List ℕ → Transmission → Option Failure × Transmission
from_json k bytes t = with_wire k t (k.unmarshal bytes t.wire)
