-- ===== src/Websocket/Frame/Mask.antt =====
-- Masking: an involution that keeps lengths and bytes.
use sio.Base.{ℕ, zero, suc, ◌+◌, ◌%◌, ◌≡◌, refl, ap, List, [], ◌∷◌, length, get_or, All, arith}
use sio.Base.Bits.{IsByte, xor_twice, xor-IsByte}
use sio.Websocket.Types.{MaskKey, key_bytes}
use sio.Websocket.Frame.{mask_from, mask_bytes}

-- A masking key as `rand.Read` draws it.
pub record IsKey (k : MaskKey) : Type 0 where
  pub byte0 : IsByte k.k0
  pub byte1 : IsByte k.k1
  pub byte2 : IsByte k.k2
  pub byte3 : IsByte k.k3

get_or-key : (k : MaskKey) (i : ℕ) → IsKey k → IsByte (get_or (key_bytes k) i 0)
get_or-key k zero h = h.byte0
get_or-key k (suc zero) h = h.byte1
get_or-key k (suc (suc zero)) h = h.byte2
get_or-key k (suc (suc (suc zero))) h = h.byte3
get_or-key k (suc (suc (suc (suc i)))) h = omega arith

pub length-mask_from : (i : ℕ) (key data' : List ℕ) → length (mask_from i key data') ≡ length data'
unfolding mask_from
length-mask_from i key [] = refl
length-mask_from i key (b ∷ data') = ap suc (length-mask_from (i + 1) key data')

mask_from_twice :
    (i : ℕ) (k : MaskKey) (data' : List ℕ)
    → IsKey k
    → All IsByte data'
    → mask_from i (key_bytes k) (mask_from i (key_bytes k) data') ≡ data'
unfolding mask_from
mask_from_twice i k [] h d = refl
mask_from_twice i k (b ∷ data') h (hb, d) = ground (
  arith,
  xor_twice b (get_or (key_bytes k) (i % 4) 0) hb (get_or-key k (i % 4) h),
  mask_from_twice (i + 1) k data' h d,
)

mask_from-IsByte :
    (i : ℕ) (k : MaskKey) (data' : List ℕ)
    → IsKey k
    → All IsByte data'
    → All IsByte (mask_from i (key_bytes k) data')
unfolding mask_from
mask_from-IsByte i k [] h d = tt
mask_from-IsByte i k (b ∷ data') h (hb, d) =
    (xor-IsByte b _ hb (get_or-key k (i % 4) h), mask_from-IsByte (i + 1) k data' h d)

-- Masking twice with the same four-byte key gives the bytes back, at every length.
pub mask_bytes_twice :
    (k : MaskKey) (data' : List ℕ)
    → IsKey k
    → All IsByte data'
    → mask_bytes (mask_bytes data' (key_bytes k)) (key_bytes k) ≡ data'
unfolding mask_bytes
mask_bytes_twice k data' h d = mask_from_twice 0 k data' h d

-- Masking keeps the length, and bytes stay bytes.
pub mask_bytes_shape :
    (k : MaskKey) (data' : List ℕ)
    → IsKey k
    → All IsByte data'
    → (length (mask_bytes data' (key_bytes k)) ≡ length data')
      × All IsByte (mask_bytes data' (key_bytes k))
unfolding mask_bytes
mask_bytes_shape k data' h d =
    (length-mask_from 0 (key_bytes k) data', mask_from-IsByte 0 k data' h d)
