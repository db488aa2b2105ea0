-- ===== src/Pool.antt =====
-- internal/bpool: the pool of byte buffers that `emitData` writes into. Sizes are uint64 and int
-- in the code; the bins keep them below 2 ^ 52, so that they are plain numbers here.
mod Index
mod Buffers
mod Examples
use sio.Base.{
  ℕ, zero, suc, ◌+◌, ◌-◌, ◌*◌, ◌/◌, ◌^◌, Bool, true, false, ◌&&◌, ◌||◌, if◌then◌else◌, List, [],
  ◌∷◌, ◌++◌, Option, none, some, ltb, leb, ◌==◌, length, take, drop, get_or,
}

abbrev default_min_bit_size : ℕ
default_min_bit_size = 6

abbrev pub steps : ℕ
steps = 20

abbrev calibrate_calls_threshold : ℕ
calibrate_calls_threshold = 42000

-- A buffer: `b` is the slice `B`, `room` what its capacity has beyond its length.
pub record ByteBuffer : Type 0 where
  pub b : List ℕ
  pub room : ℕ

unfoldable pub cap : ByteBuffer → ℕ
cap buffer = length buffer.b + buffer.room

-- append, which takes of the capacity; `grow` is how much more the runtime's append allocates.
unfoldable pub append_bytes : (ℕ → ℕ) → List ℕ → ByteBuffer → ByteBuffer
append_bytes grow p buffer = record {
  b = buffer.b ++ p;
  room =
      if leb (length p) buffer.room
      then buffer.room - length p
      else grow (length buffer.b + length p);
}

unfoldable pub write : (ℕ → ℕ) → List ℕ → ByteBuffer → ByteBuffer
write grow p buffer = append_bytes grow p buffer

unfoldable pub write_byte : (ℕ → ℕ) → ℕ → ByteBuffer → ByteBuffer
write_byte grow c buffer = append_bytes grow (c ∷ []) buffer

unfoldable pub reset : ByteBuffer → ByteBuffer
reset buffer = record { b = []; room = cap buffer }

unfoldable pub set : (ℕ → ℕ) → List ℕ → ByteBuffer → ByteBuffer
set grow p buffer = append_bytes grow p (reset buffer)

-- The loop of `index`: the number of binary digits of `n`.
unfoldable pub digits_of : ℕ → ℕ → ℕ
digits_of zero n = 0
digits_of (suc fuel) zero = 0
digits_of (suc fuel) (suc n) = suc (digits_of fuel (suc n / 2))

-- `n--` on an int: for `n` of 0 the shift leaves -1, and the loop does not run. Halving reaches 0
-- within `n` rounds.
unfoldable pub index : ℕ → ℕ → ℕ
index min_bit_size n =
    let idx = digits_of n ((n - 1) / 2 ^ min_bit_size) in if leb steps idx then steps - 1 else idx

-- The fields of Pool, with the buffers that sync.Pool holds.
pub record Pool : Type 0 where
  pub calls : List ℕ
  pub default_size : ℕ
  pub max_size : ℕ
  pub min_bit_size : ℕ
  pub min_size : ℕ
  pub pool : List ByteBuffer

-- `sync.Pool.Get`: it may have dropped what was put (`keeps` is whether it has not).
unfoldable pub pool_get : Bool → Pool → Option ByteBuffer × Pool
pool_get true p = elim p.pool as (λ q. Option ByteBuffer × Pool) [
  | [] ↦ (none, p)
  | x ∷ xs ↦ (some x, record p { pool = xs })
]
pool_get false p = (none, p)

abbrev pub pool_put : ByteBuffer → Pool → Pool
pool_put x p = record p { pool = x ∷ p.pool }

abbrev pub zeros : ℕ → List ℕ
zeros zero = []
zeros (suc n) = 0 ∷ zeros n

-- `Get`
abbrev pub got : Option ByteBuffer × Pool → ByteBuffer × Pool
got (some x, p) = (reset x, p)
got (none, p) = (record { b = []; room = p.default_size }, p)

unfoldable pub get : Bool → Pool → ByteBuffer × Pool
get keeps p = got (pool_get keeps p)

-- `make([]byte, s, size)`; none is the panic for a capacity below the length.
unfoldable pub make_slice : ℕ → ℕ → Option ByteBuffer
make_slice s size = if ltb size s then none else some (record { b = zeros s; room = size - s })

-- A new buffer with the size of the bin, or of the request where that is larger.
unfoldable pub fresh : ℕ → Pool → Option ByteBuffer
fresh s p =
    let size = p.min_size * 2 ^ index p.min_bit_size s in
    make_slice s (if ltb size s then s else size)

-- `b.B[:s]`; none is the panic for a length above the capacity. What lies behind the old length is
-- what the array held, given by `old`.
unfoldable pub reslice : (ℕ → List ℕ) → ℕ → ByteBuffer → Option ByteBuffer
reslice old s x =
    if ltb (cap x) s
    then none
    else some
        (record { b = take s (x.b ++ take x.room (old x.room ++ zeros x.room)); room = cap x - s })

abbrev pub got_len : (ℕ → List ℕ) → ℕ → Option ByteBuffer × Pool → Option ByteBuffer × Pool
got_len old s (none, p) = (fresh s p, p)
got_len old s (some x, p) =
    if leb s (cap x) then (reslice old s x, p) else (fresh s p, pool_put x p)

-- `GetLen`; none is a panic.
unfoldable pub get_len : Bool → (ℕ → List ℕ) → ℕ → Pool → Option ByteBuffer × Pool
get_len keeps old s p = got_len old s (pool_get keeps p)

unfoldable pub init_bins : Pool → Pool
init_bins p = record p { min_bit_size = default_min_bit_size; min_size = 2 ^ default_min_bit_size }

unfoldable pub resize_bins : ℕ → Pool → Pool
resize_bins min_bit_size p = record p { min_bit_size = min_bit_size; min_size = 2 ^ min_bit_size }

abbrev pub ensure_bins : Pool → Pool
ensure_bins p = if p.min_bit_size == 0 then init_bins p else p

pub record CallSize : Type 0 where
  pub num_calls : ℕ
  pub size : ℕ

-- The list that `calibrate` fills: the calls of each bin from `i` on, with the bin's size.
unfoldable pub call_sizes : ℕ → List ℕ → ℕ → List CallSize
call_sizes min_size [] i = []
call_sizes min_size (c ∷ calls) i =
    record { num_calls = c; size = min_size * 2 ^ i } ∷ call_sizes min_size calls (suc i)

unfoldable pub calls_sum : List ℕ → ℕ
calls_sum [] = 0
calls_sum (c ∷ calls) = c + calls_sum calls

-- The bins grow where the last is called more than the first, and shrink where the last two are
-- not called at all.
unfoldable pub adapt_bins : Pool → Pool
adapt_bins p =
    let first = get_or p.calls 0 0 in
    let last = get_or p.calls (steps - 1) 0 in
    if ltb (p.min_bit_size + steps) 32 && ltb first last
    then resize_bins (p.min_bit_size + 1) p
    else if ltb default_min_bit_size p.min_bit_size
        && ltb 0 first
        && get_or p.calls (steps - 2) 0 == 0
        && last == 0
    then resize_bins (p.min_bit_size - 1) p
    else p

-- The loop for the largest size among the bins that `max_sum` of the calls went to.
unfoldable pub largest : ℕ → ℕ → ℕ → List CallSize → ℕ
largest max_sum sum max_size [] = max_size
largest max_sum sum max_size (a ∷ rest) =
    let bigger =
      largest max_sum (sum + a.num_calls) (if ltb max_size a.size then a.size else max_size) rest in
    if ltb max_sum sum then max_size else bigger

abbrev pub first_size : List CallSize → ℕ
first_size [] = 0
first_size (a ∷ rest) = a.size

-- `calibrate`, where no other call of it is running. `sort` is sort.Sort with `Less`, and
-- `percentile` the product with `maxPercentile` in floating point.
unfoldable pub calibrate : (List CallSize → List CallSize) → (ℕ → ℕ) → Pool → Pool
calibrate sort percentile p0 =
    let p = ensure_bins p0 in
    let a = sort (call_sizes p.min_size p.calls 0) in
    let p' = adapt_bins p in
    record p' {
      calls = zeros steps;
      default_size = first_size a;
      max_size = largest (percentile (calls_sum p.calls)) 0 (first_size a) a;
    }

unfoldable pub bump : ℕ → List ℕ → List ℕ
bump i [] = []
bump zero (c ∷ calls) = suc c ∷ calls
bump (suc i) (c ∷ calls) = c ∷ bump i calls

-- `Put`
unfoldable pub put : (List CallSize → List CallSize) → (ℕ → ℕ) → ByteBuffer → Pool → Pool
put sort percentile x p0 =
    let p = ensure_bins p0 in
    let idx = index p.min_bit_size (length x.b) in
    let counted = record p { calls = bump idx p.calls } in
    let p' =
      if ltb calibrate_calls_threshold (get_or counted.calls idx 0)
      then calibrate sort percentile counted
      else counted in
    if p'.max_size == 0 || leb (cap x) p'.max_size then pool_put x p' else p'
