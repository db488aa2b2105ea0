-- ===== src/Websocket/Frame/Reject.antt =====
-- Inputs of `readFrame` that are no frame, or that only look like one.
use sio.Base.{
  ℕ, ◌^◌, ◌<◌, ◌≤◌, ◌≡◌, refl, sym, ap, inl, inr, Bool, true, false, List, [], ◌∷◌, ◌++◌, ℤ, pos,
  append-nil, bit_and, le→ltb,
}
use sio.Websocket.Types.{
  Frame, MaskKey, key_bytes, Error, Result, ok, err, stuck, flag_fin, flag_rsv1, flag_rsv2,
  flag_rsv3,
}
use sio.Websocket.Frame.{
  read_frame, read_after_header, read_length, read_payload, frame_bytes, put_uint64,
  is_valid_opcode, mask_allowed, has_flag,
}
use sio.Websocket.Frame.Mask.{IsKey}
use sio.Websocket.Frame.RoundTrip.{IsAccepted, read_frame-frame_bytes}
use sio.Websocket.Frame.Stream.{IsEnd, Carries, read_frame-IsSteady}
use sio.Websocket.Frame.Header.{read_full_exact, read_uint64, uint64-put}

-- The stream ended.
abbrev pub EndsShort : Result Frame × List ℕ → Type 0
EndsShort p = (e : Error) × IsEnd e × (p.0 ≡ err e)

append-ne-nil : (r : List ℕ) (x : ℕ) (back : List ℕ) → r ++ (x ∷ back) ≡ [] → ⊥
append-ne-nil [] x back e = cc
append-ne-nil (y ∷ r) x back e = cc

cut_short :
    (p : Result Frame × List ℕ) (f : Frame) (x : ℕ) (back : List ℕ)
    → Carries p (ok f, []) (x ∷ back)
    → EndsShort p
cut_short (ok g, r) f x back c = absurd (append-ne-nil r x back (sym (ap (λ p. p.1) c)))
cut_short (err e, r) f x back (inl i) = (e, i, refl)
cut_short (err e, r) f x back (inr c) = cc (ap (λ p. p.0) c)
cut_short (stuck, r) f x back c = cc (ap (λ p. p.0) c)

-- A stream that ends inside a written frame is answered by io.EOF or io.ErrUnexpectedEOF, at
-- every point where it can end, and never by a frame or another error.
pub read_frame-truncated :
    (server client : Bool) (max_frame_size : ℤ) (f : Frame) (key : MaskKey) (front : List ℕ) (x : ℕ)
    (back : List ℕ)
    → IsAccepted server client max_frame_size f
    → IsKey key
    → frame_bytes f key ≡ front ++ (x ∷ back)
    → EndsShort (read_frame server client max_frame_size front)
read_frame-truncated server client max_frame_size f key front x back a k e =
    let whole : read_frame server client max_frame_size (front ++ (x ∷ back)) ≡ (ok f, []) =
      rw (append-nil, e) at (read_frame-frame_bytes server client max_frame_size f key [] a k) in
    cut_short (read_frame server client max_frame_size front) f x back
      (rw whole at (read_frame-IsSteady server client max_frame_size front (x ∷ back)))

-- A 64-bit length of 2 ^ 63 or more becomes a negative int64. It passes the check against
-- `MaxFrameSize`, whatever limit of at least 0 is set, and the server takes the frame for an
-- empty one: what follows the key is read as the next frame.
pub read_frame-negative_length :
    (m h0 n : ℕ) (key : MaskKey) (rest : List ℕ)
    → is_valid_opcode (bit_and h0 0x0F) ≡ true
    → 2 ^ 63 ≤ n
    → n < 2 ^ 64
    → read_frame true false (pos m) (h0 ∷ 255 ∷ (put_uint64 n ++ (key_bytes key ++ rest))) ≡ (
      ok (record {
        fin = has_flag h0 flag_fin;
        rsv1 = has_flag h0 flag_rsv1;
        rsv2 = has_flag h0 flag_rsv2;
        rsv3 = has_flag h0 flag_rsv3;
        opcode = bit_and h0 0x0F;
        masked = true;
        payload = [];
      }),
      rest,
    )
unfolding read_frame read_after_header read_length read_payload mask_allowed
read_frame-negative_length m h0 n key rest v lo hi = rw (
  read_full_exact (h0 ∷ 255 ∷ []) (put_uint64 n ++ (key_bytes key ++ rest)),
  v,
  read_uint64 n (key_bytes key ++ rest),
  uint64-put n hi,
  le→ltb n (2 ^ 63) lo,
  read_full_exact (key_bytes key) rest,
)
