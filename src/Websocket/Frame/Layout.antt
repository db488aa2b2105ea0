-- ===== src/Websocket/Frame/Layout.antt =====
-- What `writeFrame` leaves in its buffer, written as a concatenation.
use sio.Base.{
  ◌≤◌, arith, ℕ, ◌≡◌, inl, inr, Bool, List, [], ◌∷◌, ◌++◌, length, ltb, if◌then◌else◌, bit_or,
  Bool-cases,
}
use sio.Websocket.Types.{Frame, MaskKey, key_bytes, flag_mask, max_payload7_bit, max_payload16_bit}
use sio.Websocket.Frame.{
  first_byte, frame_bytes, header_size, put_length, put_uint16, put_uint64, mask_bytes,
}
use sio.Websocket.Frame.Buffer.{make, set_at, copy_at, on_tail, make-add, copy_at-make}

-- The seven bits of the second byte that give the length.
unfoldable pub length7 : ℕ → ℕ
length7 n = if ltb max_payload16_bit n then 127 else if ltb max_payload7_bit n then 126 else n

unfoldable pub second_byte : Bool → ℕ → ℕ
second_byte masked n = if masked then bit_or (length7 n) flag_mask else length7 n

-- The length in two or eight bytes, for a longer payload.
unfoldable pub extended : ℕ → List ℕ
extended n =
    if ltb max_payload16_bit n
    then put_uint64 n
    else if ltb max_payload7_bit n
    then put_uint16 n
    else []

abbrev pub body : Frame → MaskKey → List ℕ
body f key = if f.masked then key_bytes key ++ mask_bytes f.payload (key_bytes key) else f.payload

unfoldable pub encoding : Frame → MaskKey → List ℕ
encoding f key =
    first_byte f
    ∷ second_byte f.masked (length f.payload)
    ∷ (extended (length f.payload) ++ body f key)

-- The buffer of `writeFrame`, when it has been filled, holds the header, the key and the payload,
-- one behind the other.
pub frame_bytes-encoding : (f : Frame) (key : MaskKey) → frame_bytes f key ≡ encoding f key
unfolding frame_bytes encoding second_byte length7 extended put_length header_size set_at copy_at
    on_tail make put_uint16 put_uint64
frame_bytes-encoding f key = elim (Bool-cases f.masked) [
  | inl m ↦ elim (Bool-cases (ltb max_payload16_bit (length f.payload))) [
    | inl long ↦ rw (m, long, make-add 14) (rw copy_at-make)
    | inr short ↦ elim (Bool-cases (ltb max_payload7_bit (length f.payload))) [
      | inl medium ↦ rw (m, short, medium, make-add 8) (rw copy_at-make)
      | inr small ↦ rw (m, short, small, make-add 6) (rw copy_at-make)
    ]
  ]
  | inr m ↦ elim (Bool-cases (ltb max_payload16_bit (length f.payload))) [
    | inl long ↦ rw (m, long, make-add 10) (rw copy_at-make)
    | inr short ↦ elim (Bool-cases (ltb max_payload7_bit (length f.payload))) [
      | inl medium ↦ rw (m, short, medium, make-add 4) (rw copy_at-make)
      | inr small ↦ rw (m, short, small, make-add 2) (rw copy_at-make)
    ]
  ]
]

-- The two header bytes at least.
pub two-le-length-frame_bytes : (f : Frame) (key : MaskKey) → 2 ≤ length (frame_bytes f key)
unfolding encoding
two-le-length-frame_bytes f key = rw (frame_bytes-encoding f key) (omega arith)
