-- ===== src/Pool/Buffers.antt =====
-- The buffers that the pool hands out, and the sizes that it settles on.
use sio.Base.{
  ℕ, ◌+◌, ◌≤◌, ◌≡◌, refl, ltb, if◌then◌else◌, List, [], ◌∷◌, Option, none, some, length, arith,
}
use sio.Pool.{ByteBuffer, Pool, CallSize, cap, zeros, largest, calibrate}

-- A buffer of the length asked for, within its capacity; no panic.
abbrev pub IsServed : ℕ → Option ByteBuffer → Type 0
IsServed s none = ⊥
IsServed s (some x) = (length x.b ≡ s) × (s ≤ cap x)

largest-le : (m sum top : ℕ) (a : List CallSize) → top ≤ largest m sum top a
unfolding largest
largest-le m sum top [] = omega arith
largest-le m sum top (c ∷ a) =
    ground (arith, largest-le m (sum + c.num_calls) (if ltb top c.size then c.size else top) a)

-- Whatever the calls of the bins were, and however sort.Sort orders bins with as many calls, the
-- pool keeps buffers of its default size at least, and counts from zero again.
pub calibrate_sizes :
    (sort : List CallSize → List CallSize) (percentile : ℕ → ℕ) (p : Pool)
    → let p' = calibrate sort percentile p in
      (p'.default_size ≤ p'.max_size) × (p'.calls ≡ zeros 20)
unfolding calibrate
calibrate_sizes sort percentile p = (largest-le _ _ _ _, refl)
