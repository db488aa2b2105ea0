-- ===== src/Transmission/Round.antt =====
-- What a transmission brings to the other server.
use sio.Base.{
  ℕ, ℤ, ◌≡◌, refl, ap, ◌∙◌, false, if◌then◌else◌, if-false, List, [], Option, none, some,
}
use sio.Base.Text.{text_eq}
use sio.Event.{Data, str, bin, other}
use sio.Transmission.{
  Wire, Transmission, Codec, Failure, no_event_name, bad_data_type, is_kind, tt_str, tt_bin,
  tt_json, get_data_type, filled, to_json, from_json, with_wire, with_payload, with_value,
}

-- What Unmarshal makes of a wire struct on top of another one: JSON leaves an empty room name out
-- (omitempty), so that the one that was there stays.
abbrev pub read_over : Wire → Wire → Wire
read_over into w = record w {
  room_name = if text_eq w.room_name [] then into.room_name else w.room_name;
}

-- What the libraries promise for a transmission: its names are text that JSON keeps, so that the
-- struct that was marshalled is read back over another one, base64 is decoded to what was encoded,
-- and a value that Marshal took is read back as some value, `read` of it (the keys of a struct
-- come in another order, for one).
pub record IsKept (k : Codec) (read : List ℕ → List ℕ) (t : Transmission) : Type 0 where
  pub wire_back :
      (into : Wire) (bytes : List ℕ)
      → k.marshal (filled k t).wire ≡ some bytes
      → k.unmarshal bytes into ≡ some (read_over into (filled k t).wire)
  pub string_back : (d : List ℕ) → k.decode_string (k.encode_to_string d) ≡ some d
  pub value_back : (d : List ℕ) → t.content ≡ other (some d) → k.value d ≡ some (read d)

-- What arrives for a value: a value that json.Marshal refuses comes as the empty string.
abbrev pub arrives_as : (List ℕ → List ℕ) → Data → Data
arrives_as read (str d) = str d
arrives_as read (bin d) = bin d
arrives_as read (other none) = str []
arrives_as read (other (some d)) = other (some (read d))

-- With codecs that keep the transmission, a transmission with an event name that one server turns
-- to JSON is read by another with no error, whatever transmission it is read into: a string as the
-- same string, bytes as the same bytes, a value as what encoding/json reads of its JSON, and a
-- value that could not be marshalled as the empty string; with the same names, but that an empty
-- room name leaves the one that was there.
pub from_json-to_json :
    (k : Codec) (read : List ℕ → List ℕ) (t into : Transmission) (bytes : List ℕ)
    → IsKept k read t
    → text_eq t.wire.event_name [] ≡ false
    → (to_json k t).0 ≡ some bytes
    → from_json k bytes into ≡ (
      none,
      record {
        wire = read_over into.wire (to_json k t).1.wire;
        content = arrives_as read t.content;
      },
    )
unfolding to_json from_json filled get_data_type
from_json-to_json k read t into bytes c named e =
    ap (with_wire k into) (c.wire_back into.wire bytes e) ∙ by_content t.content refl
  where
    sent : List ℕ → ℤ → Wire
    sent d kind =
        read_over into.wire (record t.wire { payload = k.encode_to_string d; data_type = kind })

    -- Behind the two refusals.
    paid :
        (d : List ℕ) (kind : ℤ)
        → (if is_kind kind 0
            then (some bad_data_type, record into { wire = sent d kind })
            else if text_eq t.wire.event_name []
            then (some no_event_name, record into { wire = sent d kind })
            else with_payload k
                (record into { wire = sent d kind })
                (k.decode_string (k.encode_to_string d)))
          ≡ (if is_kind kind 0
              then (some bad_data_type, record into { wire = sent d kind })
              else with_payload k (record into { wire = sent d kind }) (some d))
    paid d kind =
        ap
          (λ (r : Option Failure × Transmission).
            if is_kind kind 0 then (some bad_data_type, record into { wire = sent d kind }) else r)
          (if-false (text_eq t.wire.event_name [])
              (some no_event_name, record into { wire = sent d kind }) _ named
            ∙ ap (with_payload k (record into { wire = sent d kind })) (c.string_back d))

    by_content :
        (x : Data)
        → t.content ≡ x
        → with_wire k into (some (sent (get_data_type x).0 (get_data_type x).1)) ≡ (
          none,
          record {
            wire = sent (get_data_type x).0 (get_data_type x).1;
            content = arrives_as read x;
          },
        )
    by_content (str d) same = paid d tt_str
    by_content (bin d) same = paid d tt_bin
    by_content (other none) same = paid [] tt_str
    by_content (other (some d)) same =
        paid d tt_json
        ∙ ap (with_value (record into { wire = sent d tt_json })) (c.value_back d same)
