-- ===== src/Store/Lookup.antt =====
-- `lookup` after each change of the entries.
use d_lmdb.Base.{◌≡◌, refl, ◌&&◌, [], ◌∷◌, none, some, arith, if◌then◌else◌}
use d_lmdb.Bytes.{Bytes, bytes_eq}
use d_lmdb.Bytes.Order.{eq_of_cmp, cmp_refl}
use d_lmdb.Store.{Entries, Bound, above_start, below_end, lookup, insert, erase, without}
use d_lmdb.Store.Sorted.{Above}

pub lookup-Above : (k : Bytes) (m : Entries) → Above k m → lookup k m ≡ none
unfolding lookup
lookup-Above k [] a = refl
lookup-Above k ((j, w) ∷ m) a = ground (arith, lookup-Above k m a.1)

pub lookup-insert :
    (k j v : Bytes) (m : Entries)
    → lookup j (insert k v m) ≡ (if bytes_eq j k then some v else lookup j m)
unfolding lookup insert
lookup-insert k j v [] = refl
lookup-insert k j v ((i, w) ∷ m) = ground (
  arith,
  lookup-insert k j v m,
  eq_of_cmp k i,
  eq_of_cmp j k,
  eq_of_cmp j i,
  cmp_refl j,
  cmp_refl i,
)

pub lookup-erase :
    (k j : Bytes) (m : Entries) → lookup j (erase k m) ≡ (if bytes_eq j k then none else lookup j m)
unfolding lookup erase
lookup-erase k j [] = ground arith
lookup-erase k j ((i, w) ∷ m) =
    ground (
      arith,
      lookup-erase k j m,
      eq_of_cmp k i,
      eq_of_cmp j k,
      eq_of_cmp j i,
      cmp_refl j,
      cmp_refl i,
    )

pub lookup-insert_self : (k v : Bytes) (m : Entries) → lookup k (insert k v m) ≡ some v
lookup-insert_self k v m = ground (arith, lookup-insert k k v m, cmp_refl k)

pub lookup-without :
    (lo hi : Bound) (k : Bytes) (m : Entries)
    → lookup k (without lo hi m) ≡ (if above_start lo k && below_end hi k then none else lookup k m)
unfolding lookup without
lookup-without lo hi k [] = ground arith
lookup-without lo hi k ((j, w) ∷ m) = ground (arith, lookup-without lo hi k m, eq_of_cmp k j)
