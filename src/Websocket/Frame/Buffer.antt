-- ===== src/Websocket/Frame/Buffer.antt =====
-- Go byte slices that are made, indexed and copied into.
use sio.Base.{ℕ, zero, suc, ◌+◌, ◌≡◌, refl, ap, List, [], ◌∷◌, ◌++◌, length, arith}

-- `make([]byte, n)`
unfoldable pub make : ℕ → List ℕ
make zero = []
make (suc n) = 0 ∷ make n

-- `copy(b[offset:], src)`: what does not fit is dropped.
unfoldable pub copy_at : ℕ → List ℕ → List ℕ → List ℕ
copy_at zero [] bs = bs
copy_at zero (s ∷ src) [] = []
copy_at zero (s ∷ src) (b ∷ bs) = s ∷ copy_at zero src bs
copy_at (suc offset) src [] = []
copy_at (suc offset) src (b ∷ bs) = b ∷ copy_at offset src bs

-- `b[i] = v`
unfoldable pub set_at : ℕ → ℕ → List ℕ → List ℕ
set_at i v [] = []
set_at zero v (b ∷ bs) = v ∷ bs
set_at (suc i) v (b ∷ bs) = b ∷ set_at i v bs

-- An update of `b[offset:]` in place.
unfoldable pub on_tail : ℕ → (List ℕ → List ℕ) → List ℕ → List ℕ
on_tail zero f bs = f bs
on_tail (suc offset) f [] = []
on_tail (suc offset) f (b ∷ bs) = b ∷ on_tail offset f bs

pub make-add : (m n : ℕ) → make (m + n) ≡ make m ++ make n
unfolding make
make-add zero n = let e : zero + n ≡ n = omega arith in rw e
make-add (suc m) n =
    let e : suc m + n ≡ suc (m + n) = omega arith in rw e (ap (◌∷◌ 0) (make-add m n))

-- Copying into a fresh buffer of the same length gives the source.
pub copy_at-make : (src : List ℕ) → copy_at 0 src (make (length src)) ≡ src
unfolding copy_at make
copy_at-make [] = refl
copy_at-make (s ∷ src) = ap (◌∷◌ s) (copy_at-make src)
