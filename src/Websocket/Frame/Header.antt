-- ===== src/Websocket/Frame/Header.antt =====
-- The header that `writeFrame` writes is read back by `readFrame`.
use sio.Base.{
  ℕ, ◌+◌, ◌*◌, ◌/◌, ◌%◌, ◌^◌, ◌<◌, ◌≤◌, ◌≡◌, refl, inl, inr, Bool, true, false, List, [], ◌∷◌, ◌++◌,
  length, take, drop, ltb, bit_and, bit_or, Bool-cases, pos, arith, le→ltb, lt→ltb, ne→==,
  length-append, if◌then◌else◌,
}
use sio.Base.Bits.{and_0f, and_7f, and_80, and_40, and_20, and_10, or_80, or_40, or_20, or_10}
use sio.Websocket.Types.{
  Frame, ok, flag_fin, flag_rsv1, flag_rsv2, flag_rsv3, flag_mask, max_payload7_bit,
  max_payload16_bit,
}
use sio.Websocket.Frame.{
  read_full, uint16, uint64, put_uint16, put_uint64, read_length, first_byte, has_flag, or_flag,
}
use sio.Websocket.Frame.Layout.{length7, second_byte, extended}

take_append : {A : Type 0} (xs s : List A) → take (length xs) (xs ++ s) ≡ xs
take_append [] s = refl
take_append (x ∷ xs) s = ground (arith, take_append xs s)

drop_append : {A : Type 0} (xs s : List A) → drop (length xs) (xs ++ s) ≡ s
drop_append [] s = refl
drop_append (x ∷ xs) s = drop_append xs s

-- A read that the stream can serve.
pub read_full_exact : (xs s : List ℕ) → read_full (length xs) (xs ++ s) ≡ (ok xs, s)
unfolding read_full
read_full_exact xs s = rw (
  le→ltb (length (xs ++ s)) (length xs) (omega (arith, length-append xs s)),
  take_append xs s,
  drop_append xs s,
)

uint16-put : (n : ℕ) → n < 2 ^ 16 → uint16 (put_uint16 n) ≡ n
unfolding uint16 put_uint16
uint16-put n h = omega arith

pub uint64-put : (n : ℕ) → n < 2 ^ 64 → uint64 (put_uint64 n) ≡ n
unfolding uint64 put_uint64
uint64-put n h = omega arith

read_uint16 : (n : ℕ) (s : List ℕ) → read_full 2 (put_uint16 n ++ s) ≡ (ok (put_uint16 n), s)
unfolding put_uint16
read_uint16 n s = read_full_exact ((n / 256 % 256) ∷ (n % 256) ∷ []) s

pub read_uint64 : (n : ℕ) (s : List ℕ) → read_full 8 (put_uint64 n ++ s) ≡ (ok (put_uint64 n), s)
read_uint64 n s =
    let e : length (put_uint64 n) ≡ 8 = unfold put_uint64 in refl in
    rw (← e) (read_full_exact (put_uint64 n) s)

-- The length that `writeFrame` stores is the length that `readFrame` finds, up to the int64 limit.
pub read_length-extended :
    (n : ℕ) (s : List ℕ) → n < 2 ^ 63 → read_length (length7 n) (extended n ++ s) ≡ (ok (pos n), s)
unfolding read_length length7 extended
read_length-extended n s h = elim (Bool-cases (ltb max_payload16_bit n)) [
  | inl long ↦ rw (long, read_uint64 n s, uint64-put n (omega arith), lt→ltb n (2 ^ 63) h)
  | inr short ↦ elim (Bool-cases (ltb max_payload7_bit n)) [
    | inl medium ↦
        let small : n < 2 ^ 16 = ground arith in
        rw (short, medium, read_uint16 n s, uint16-put n small, lt→ltb n (2 ^ 63) h)
    | inr small ↦
        let bound : n ≤ 125 = ground arith in
        rw (short, small, ne→== n 126 (omega arith), ne→== n 127 (omega arith))
  ]
]

length7-lt : (n : ℕ) → length7 n < 128
unfolding length7
length7-lt n = ground arith

pub second_byte_length : (masked : Bool) (n : ℕ) → bit_and (second_byte masked n) 0x7F ≡ length7 n
unfolding second_byte
second_byte_length true n =
    ground (arith, length7-lt n, or_80 (length7 n), and_7f (bit_or (length7 n) 0x80))
second_byte_length false n = ground (arith, length7-lt n, and_7f (length7 n))

pub second_byte_flag : (masked : Bool) (n : ℕ) → has_flag (second_byte masked n) flag_mask ≡ masked
unfolding second_byte
second_byte_flag true n =
    ground (arith, length7-lt n, or_80 (length7 n), and_80 (bit_or (length7 n) 0x80))
second_byte_flag false n = ground (arith, length7-lt n, and_80 (length7 n))

flag_value : Bool → ℕ
flag_value b = if b then 1 else 0

-- The first byte as a number.
first_byte_value :
    (f : Frame)
    → f.opcode < 16
    → first_byte f
      ≡ f.opcode
        + flag_value f.fin * 128
        + flag_value f.rsv1 * 64
        + flag_value f.rsv2 * 32
        + flag_value f.rsv3 * 16
unfolding first_byte flag_value
first_byte_value f h =
    let b1 = or_flag f.fin flag_fin f.opcode in
    let b2 = or_flag f.rsv1 flag_rsv1 b1 in
    let b3 = or_flag f.rsv2 flag_rsv2 b2 in
    ground (arith, or_80 f.opcode, or_40 b1, or_20 b2, or_10 b3)

pub first_byte_fields :
    (f : Frame)
    → f.opcode < 16
    → (bit_and (first_byte f) 0x0F ≡ f.opcode)
      × (has_flag (first_byte f) flag_fin ≡ f.fin)
      × (has_flag (first_byte f) flag_rsv1 ≡ f.rsv1)
      × (has_flag (first_byte f) flag_rsv2 ≡ f.rsv2)
      × (has_flag (first_byte f) flag_rsv3 ≡ f.rsv3)
unfolding flag_value
first_byte_fields f h =
    let b = first_byte f in
    ground (arith, first_byte_value f h, and_0f b, and_80 b, and_40 b, and_20 b, and_10 b)
