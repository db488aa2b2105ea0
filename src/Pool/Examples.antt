-- ===== src/Pool/Examples.antt =====
-- The theorems on the pool at a fresh one.
use sio.Base.{[], ◌∷◌}
use sio.Pool.{Pool, zeros}

abbrev fresh_pool : Pool
fresh_pool = record {
  calls = zeros 20;
  default_size = 0;
  max_size = 0;
  min_bit_size = 6;
  min_size = 64;
  pool = record { b = 1 ∷ []; room = 3 } ∷ [];
}
