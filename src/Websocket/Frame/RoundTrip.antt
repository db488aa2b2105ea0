-- ===== src/Websocket/Frame/RoundTrip.antt =====
-- What one side writes with `writeFrame` the other side reads with `readFrame`.
use sio.Base.{
  ℕ, ◌^◌, ◌<◌, ◌≡◌, refl, inl, inr, Bool, true, false, List, [], ◌∷◌, ◌++◌, length, All, Bool-cases,
  ℤ, pos, ltz, arith, append_assoc,
}
use sio.Base.Bits.{IsByte}
use sio.Websocket.Types.{Frame, MaskKey, key_bytes, ok}
use sio.Websocket.Frame.{
  read_mask_key, read_payload, read_after_header, read_frame, frame_bytes, first_byte, mask_bytes,
  mask_allowed, is_valid_opcode, ◌>>=◌, return, Reader,
}
use sio.Websocket.Frame.Layout.{encoding, second_byte, extended, body, frame_bytes-encoding}
use sio.Websocket.Frame.Header.{
  read_full_exact, read_length-extended, second_byte_length, second_byte_flag, first_byte_fields,
}
use sio.Websocket.Frame.Mask.{IsKey, mask_bytes_twice, mask_bytes_shape}

-- A frame that the reader's side is ready to take.
pub record IsAccepted (server client : Bool) (max_frame_size : ℤ) (f : Frame) : Type 0 where
  pub opcode : is_valid_opcode f.opcode ≡ true
  pub role : mask_allowed server client f.masked ≡ true
  pub fits : ltz max_frame_size (pos (length f.payload)) ≡ false
  pub int64 : length f.payload < 2 ^ 63
  pub bytes : All IsByte f.payload

valid_opcode-lt : (o : ℕ) → is_valid_opcode o ≡ true → o < 16
unfolding is_valid_opcode
valid_opcode-lt o h = ground arith

-- The key and the payload behind the length.
read_plain :
    (payload key rest : List ℕ)
    → read_payload (pos (length payload)) false key (payload ++ rest) ≡ (ok payload, rest)
unfolding read_payload
read_plain [] key rest = refl
read_plain (b ∷ bs) key rest = rw (read_full_exact (b ∷ bs) rest)

read_masked :
    (payload sent key rest : List ℕ)
    → length sent ≡ length payload
    → mask_bytes sent key ≡ payload
    → read_payload (pos (length payload)) true key (sent ++ rest) ≡ (ok payload, rest)
unfolding read_payload
read_masked [] [] key rest e m = refl
read_masked [] (b ∷ sent) key rest e m = absurd (omega arith)
read_masked (p ∷ payload) sent key rest e m = rw (← e, read_full_exact sent rest, m)

read_body :
    {A : Type 0} (f : Frame) (key : MaskKey) (next : List ℕ → Reader A) (rest : List ℕ)
    → All IsByte f.payload
    → IsKey key
    → (do
      k ← read_mask_key f.masked
      payload ← read_payload (pos (length f.payload)) f.masked k
      next payload)
        (body f key ++ rest)
      ≡ next f.payload rest
read_body f key next rest b k = elim (Bool-cases f.masked) [
  | inl m ↦
      let sent : List ℕ = mask_bytes f.payload (key_bytes key) in
      let same : length sent ≡ length f.payload = (mask_bytes_shape key f.payload k b).0 in
      let back : mask_bytes sent (key_bytes key) ≡ f.payload = mask_bytes_twice key f.payload k b in
      rw m (
        rw (append_assoc (key_bytes key) sent rest, read_full_exact (key_bytes key) (sent ++ rest))
          (rw (read_masked f.payload sent (key_bytes key) rest same back)))
  | inr m ↦ rw m (rw (read_plain f.payload [] rest))
]

read_after_header-encoding :
    (server client : Bool) (max_frame_size : ℤ) (f : Frame) (key : MaskKey) (rest : List ℕ)
    → IsAccepted server client max_frame_size f
    → IsKey key
    → read_after_header server client max_frame_size
        (first_byte f)
        (second_byte f.masked (length f.payload))
        ((extended (length f.payload) ++ body f key) ++ rest)
      ≡ (ok f, rest)
unfolding read_after_header
read_after_header-encoding server client max_frame_size f key rest a k =
    let (o, fin, r1, r2, r3) = first_byte_fields f (valid_opcode-lt f.opcode a.opcode) in
    rw
      (
        second_byte_flag f.masked (length f.payload),
        second_byte_length f.masked (length f.payload),
        o,
        fin,
        r1,
        r2,
        r3,
        a.opcode,
        a.role,
        append_assoc (extended (length f.payload)),
        read_length-extended (length f.payload) (body f key ++ rest) a.int64,
        a.fits,
      )
      (read_body f key (λ payload. return (record f { payload = payload })) rest a.bytes k)

-- Whatever frame the reader's side accepts, `readFrame` takes exactly the bytes that `writeFrame`
-- made of it from the front of the stream, returns the frame, and leaves what follows.
pub read_frame-frame_bytes :
    (server client : Bool) (max_frame_size : ℤ) (f : Frame) (key : MaskKey) (rest : List ℕ)
    → IsAccepted server client max_frame_size f
    → IsKey key
    → read_frame server client max_frame_size (frame_bytes f key ++ rest) ≡ (ok f, rest)
unfolding read_frame encoding
read_frame-frame_bytes server client max_frame_size f key rest a k =
    let h0 : ℕ = first_byte f in
    let h1 : ℕ = second_byte f.masked (length f.payload) in
    rw
      (
        frame_bytes-encoding f key,
        read_full_exact (h0 ∷ h1 ∷ []) ((extended (length f.payload) ++ body f key) ++ rest),
      )
      (read_after_header-encoding server client max_frame_size f key rest a k)
