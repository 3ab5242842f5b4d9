-- ===== src/Store/Range.antt =====
-- Ranges of sorted entries.
use d_lmdb.Base.{ℕ, zero, suc, ◌≡◌, refl, ap, true, some, [], ◌∷◌, arith, All, take, drop, length}
use d_lmdb.Bytes.{Bytes, bytes_lt}
use d_lmdb.Bytes.Order.{lt_trans, gt_of_lt, eq_of_cmp, cmp_refl}
use d_lmdb.Store.{Entries, Bound, included, excluded, unbounded, above_start, within, last}
use d_lmdb.Store.Sorted.{Above, IsSorted}

-- A range from a start, then cut at an end.
pub within-within :
    (lo hi : Bound) (m : Entries) → within unbounded hi (within lo unbounded m) ≡ within lo hi m
unfolding within
within-within lo hi [] = refl
within-within lo hi ((k, v) ∷ m) = ground (arith, within-within lo hi m)

-- what lies above a key that lies above the start does so too
above_start_trans :
    (lo : Bound) (a k : Bytes)
    → above_start lo a ≡ true
    → bytes_lt a k ≡ true
    → above_start lo k ≡ true
above_start_trans (included s) a k h l = ground (arith, lt_trans s a k, eq_of_cmp s a, gt_of_lt s k)
above_start_trans (excluded s) a k h l = ground (arith, lt_trans s a k)
above_start_trans unbounded a k h l = refl

-- A range resumed after one of its keys.
pub within-excluded :
    (lo hi : Bound) (a : Bytes) (m : Entries)
    → above_start lo a ≡ true
    → within (excluded a) unbounded (within lo hi m) ≡ within (excluded a) hi m
unfolding within
within-excluded lo hi a [] h = refl
within-excluded lo hi a ((k, v) ∷ m) h =
    ground (arith, within-excluded lo hi a m h, above_start_trans lo a k h)

pub within-start :
    (lo hi : Bound) (m : Entries) → All (λ e. above_start lo e.0 ≡ true) (within lo hi m)
unfolding within
within-start lo hi [] = tt
within-start lo hi ((k, v) ∷ m) = ground (arith, within-start lo hi m)

within-Above : (k : Bytes) (m : Entries) → Above k m → within (excluded k) unbounded m ≡ m
unfolding within
within-Above k [] a = refl
within-Above k ((j, w) ∷ m) a = ground (arith, within-Above k m a.1)

last-Above :
    (k a w : Bytes) (n : ℕ) (m : Entries)
    → Above k m
    → last (take n m) ≡ some (a, w)
    → bytes_lt k a ≡ true
unfolding last
last-Above k a w zero m h e = cc
last-Above k a w (suc n) [] h e = cc
last-Above k a w (suc zero) ((j, v) ∷ m) h e = ground arith
last-Above k a w (suc (suc n)) ((j, v) ∷ []) h e = ground arith
last-Above k a w (suc (suc n)) ((j, v) ∷ (i, u) ∷ m) h e =
    last-Above k a w (suc n) ((i, u) ∷ m) h.1 e

-- Of sorted entries, those after the last of the first `n` are the rest.
pub within-last :
    (a w : Bytes) (n : ℕ) (m : Entries)
    → IsSorted m
    → last (take n m) ≡ some (a, w)
    → within (excluded a) unbounded m ≡ drop (length (take n m)) m
unfolding last within
within-last a w zero m s e = cc
within-last a w (suc n) [] s e = cc
within-last a w (suc zero) ((j, v) ∷ m) s e = ground (arith, within-Above j m s.0, cmp_refl j)
within-last a w (suc (suc n)) ((j, v) ∷ []) s e = ground (arith, cmp_refl j)
within-last a w (suc (suc n)) ((j, v) ∷ (i, u) ∷ m) s e = ground (
  arith,
  within-last a w (suc n) ((i, u) ∷ m) s.1 e,
  last-Above j a w (suc n) ((i, u) ∷ m) s.0 e,
  gt_of_lt j a,
)

pub within_all : (m : Entries) → within unbounded unbounded m ≡ m
unfolding within
within_all [] = refl
within_all ((k, v) ∷ m) = ap (λ r. (k, v) ∷ r) (within_all m)
