-- ===== src/Machine/Scan/Live.antt =====
-- What a scan is to return: the entries of a range that the filter keeps.
use d_lmdb.Base.{
  ◌≡◌, refl, sym, ap, ◌∙◌, ◌&&◌, true, Option, some, none, [], ◌∷◌, arith, All, take, ℕ, zero, suc,
  if◌then◌else◌,
}
use d_lmdb.Bytes.{Bytes, IsBytes, bytes_le, starts_with}
use d_lmdb.Bytes.Prefix.{starts_with_range, below}
use d_lmdb.Store.{
  Entries, Bound, included, excluded, unbounded, above_start, below_end, within, last,
}
use d_lmdb.Store.Sorted.{Above, IsSorted}
use d_lmdb.Machine.Scan.{Filter, filtered, next_prefix}
use d_lmdb.Machine.Scan.NextPrefix.{next_prefix-eq-successor}

-- The live entries, each with what the filter makes of its value.
unfoldable pub kept : Filter → Entries → Entries
kept filter [] = []
kept filter ((k, v) ∷ m) = elim (filtered filter v) [
  | some payload ↦ (k, payload) ∷ kept filter m
  | none ↦ kept filter m
]

-- the end of a range, as a bound
abbrev pub end_bound : Option Bytes → Bound
end_bound (some e) = excluded e
end_bound none = unbounded

-- the entries whose keys start with a prefix
unfoldable pub having : Bytes → Entries → Entries
having p [] = []
having p ((k, v) ∷ m) = let rest = having p m in if starts_with p k then (k, v) ∷ rest else rest

-- every key is made of bytes
abbrev pub HasByteKeys : Entries → Type 0
HasByteKeys m = All (λ e. IsBytes e.0) m

below_end-below : (o : Option Bytes) (k : Bytes) → below_end (end_bound o) k ≡ below o k
below_end-below none k = refl
below_end-below (some e) k = refl

in_prefix_range :
    (p k : Bytes)
    → IsBytes k
    → (bytes_le p k && below_end (end_bound (next_prefix p)) k) ≡ starts_with p k
in_prefix_range p k b =
    ap (λ e. bytes_le p k && e)
      (below_end-below (next_prefix p) k ∙ ap (λ o. below o k) (next_prefix-eq-successor p))
    ∙ sym (starts_with_range p k b)

-- Over keys made of bytes, the range from a prefix to its `next_prefix`, which
-- `scan_prefix_bounded` asks for, holds exactly the keys that start with the prefix.
pub within-next_prefix :
    (p : Bytes) (m : Entries)
    → HasByteKeys m
    → within (included p) (end_bound (next_prefix p)) m ≡ having p m
unfolding within having
within-next_prefix p [] h = refl
within-next_prefix p ((k, v) ∷ m) h = rw (in_prefix_range p k h.0, within-next_prefix p m h.1)

pub kept-within :
    (f : Filter) (lo hi : Bound) (m : Entries) → kept f (within lo hi m) ≡ within lo hi (kept f m)
unfolding kept within
kept-within f lo hi [] = refl
kept-within f lo hi ((k, v) ∷ m) = ground (arith, kept-within f lo hi m)

Above-kept : (f : Filter) (k : Bytes) (m : Entries) → Above k m → Above k (kept f m)
unfolding kept
Above-kept f k [] a = tt
Above-kept f k ((j, v) ∷ m) a = ground (arith, Above-kept f k m a.1)

pub kept-IsSorted : (f : Filter) (m : Entries) → IsSorted m → IsSorted (kept f m)
unfolding kept
kept-IsSorted f [] s = tt
kept-IsSorted f ((j, v) ∷ m) s = ground (arith, kept-IsSorted f m s.1, Above-kept f j m s.0)

pub All-start-kept :
    (lo : Bound) (f : Filter) (m : Entries)
    → All (λ e. above_start lo e.0 ≡ true) m
    → All (λ e. above_start lo e.0 ≡ true) (kept f m)
unfolding kept
All-start-kept lo f [] a = tt
All-start-kept lo f ((j, v) ∷ m) a = ground (arith, All-start-kept lo f m a.1)

pub All-start-last :
    (lo : Bound) (a w : Bytes) (n : ℕ) (m : Entries)
    → All (λ e. above_start lo e.0 ≡ true) m
    → last (take n m) ≡ some (a, w)
    → above_start lo a ≡ true
unfolding last
All-start-last lo a w zero m h e = cc
All-start-last lo a w (suc n) [] h e = cc
All-start-last lo a w (suc zero) ((j, v) ∷ m) h e = ground arith
All-start-last lo a w (suc (suc n)) ((j, v) ∷ []) h e = ground arith
All-start-last lo a w (suc (suc n)) ((j, v) ∷ (i, u) ∷ m) h e =
    All-start-last lo a w (suc n) ((i, u) ∷ m) h.1 e
