-- ===== src/Transmission/Examples.antt =====
-- A transmission with a codec that writes the length of each field before it, and one byte for the
-- data type.
use sio.Base.{
  ℕ, ◌≡◌, refl, ap, ℤ, pos, negsuc, List, [], ◌∷◌, ◌++◌, Option, none, some, length, take, drop,
}
use mathlib.Core.Path.{subst}
use sio.Base.Text.{Text, codes, text_eq}
use sio.Event.{str}
use sio.Transmission.{Wire, Transmission, Codec, filled, get_data_type, to_json, from_json}
use sio.Transmission.Round.{IsKept, read_over, from_json-to_json}

abbrev field : Text → List ℕ
field t = length t ∷ t

abbrev kind_byte : ℤ → ℕ
kind_byte (pos n) = n
kind_byte (negsuc n) = 0

-- A room name that is empty is left out: its length of 0 says so.
abbrev written : Wire → List ℕ
written w =
    kind_byte w.data_type
    ∷ (field w.event_name ++ field w.room_name ++ field w.payload ++ field w.server_name)

-- A field, and what is behind it.
abbrev cut : List ℕ → Text × List ℕ
cut [] = ([], [])
cut (n ∷ bytes) = (take n bytes, drop n bytes)

abbrev read_wire : List ℕ → Wire → Option Wire
read_wire [] into = none
read_wire (kind ∷ bytes) into =
    let (event, rest) = cut bytes in
    let (room, rest') = cut rest in
    let (payload, rest'') = cut rest' in
    some (
      read_over into (record {
        data_type = pos kind;
        event_name = event;
        room_name = room;
        payload = payload;
        server_name = (cut rest'').0;
      }))

-- In place of base64, a mark before the bytes.
abbrev unmark : Text → Option (List ℕ)
unmark [] = none
unmark (b ∷ bs) = some bs

abbrev codec : Codec
codec = record {
  marshal = λ w. some (written w);
  unmarshal = read_wire;
  value = λ d. some d;
  encode_to_string = λ d. 61 ∷ d;
  decode_string = unmark;
}

-- A broadcast: no room name.
abbrev sent : Transmission
sent = record {
  wire = record {
    data_type = pos 0;
    event_name = codes "e";
    room_name = [];
    payload = [];
    server_name = codes "s";
  };
  content = str (codes "hi");
}

abbrev before : Transmission
before = record {
  wire = record {
    data_type = pos 3;
    event_name = codes "f";
    room_name = codes "r";
    payload = codes "=x";
    server_name = codes "t";
  };
  content = str [];
}

sent-IsKept : IsKept codec (λ d. d) sent
unfolding filled get_data_type text_eq
sent-IsKept = record {
  wire_back = λ into bytes e. back into bytes e;
  string_back = λ d. refl;
  value_back = λ d e. refl;
}
  where
    or_empty : Option (List ℕ) → List ℕ
    or_empty none = []
    or_empty (some b) = b

    back :
        (into : Wire) (bytes : List ℕ)
        → some (written (filled codec sent).wire) ≡ some bytes
        → read_wire bytes into ≡ some (read_over into (filled codec sent).wire)
    back into bytes e =
        subst (λ b. read_wire b into ≡ some (read_over into (filled codec sent).wire))
          (ap or_empty e) refl

from_json-to_json_example : from_json codec (written (filled codec sent).wire) before ≡ (
  none,
  record {
    wire = record {
      data_type = pos 1;
      event_name = codes "e";
      room_name = codes "r";
      payload = codes "=hi";
      server_name = codes "s";
    };
    content = str (codes "hi");
  },
)
unfolding to_json filled get_data_type text_eq
from_json-to_json_example =
    from_json-to_json codec (λ d. d) sent before (written (filled codec sent).wire) sent-IsKept refl
      refl
