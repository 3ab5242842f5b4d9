-- ===== src/Store/Sorted.antt =====
-- The key order of entries, under the operations.
use Prim.Native.Nat.Ordering.{lt}
use mathlib.Core.List.{append-nil, append_assoc}
use d_lmdb.Base.{◌≡◌, refl, sym, ◌∙◌, [], ◌∷◌, ◌++◌, arith}
use d_lmdb.Bytes.{Bytes, cmp}
use d_lmdb.Bytes.Order.{lt_trans, lt_of_gt, gt_of_lt, eq_of_cmp}
use d_lmdb.Store.{Entries, Bound, insert, erase, within, without}

-- every key of the entries is greater than `k`
abbrev pub Above : Bytes → Entries → Type 0
Above k [] = Unit
Above k ((j, w) ∷ m) = (cmp k j ≡ lt) × Above k m

abbrev pub IsSorted : Entries → Type 0
IsSorted [] = Unit
IsSorted ((k, v) ∷ m) = Above k m × IsSorted m

pub Above-trans : (k j : Bytes) (m : Entries) → cmp k j ≡ lt → Above j m → Above k m
Above-trans k j [] h a = tt
Above-trans k j ((i, w) ∷ m) h a = (lt_trans k j i h a.0, Above-trans k j m h a.1)

Above-insert : (i k v : Bytes) (m : Entries) → cmp i k ≡ lt → Above i m → Above i (insert k v m)
unfolding insert
Above-insert i k v [] h a = (h, tt)
Above-insert i k v ((j, w) ∷ m) h a = ground (arith, Above-insert i k v m h)

pub insert-IsSorted : (k v : Bytes) (m : Entries) → IsSorted m → IsSorted (insert k v m)
unfolding insert
insert-IsSorted k v [] s = (tt, tt)
insert-IsSorted k v ((j, w) ∷ m) s = ground (
  arith,
  insert-IsSorted k v m s.1,
  Above-trans k j m,
  Above-insert j k v m,
  lt_of_gt k j,
  eq_of_cmp k j,
)

pub Above-erase : (i k : Bytes) (m : Entries) → Above i m → Above i (erase k m)
unfolding erase
Above-erase i k [] a = tt
Above-erase i k ((j, w) ∷ m) a = ground (arith, Above-erase i k m a.1)

pub erase-IsSorted : (k : Bytes) (m : Entries) → IsSorted m → IsSorted (erase k m)
unfolding erase
erase-IsSorted k [] s = tt
erase-IsSorted k ((j, w) ∷ m) s = ground (arith, erase-IsSorted k m s.1, Above-erase j k m s.0)

-- Putting the entries of a list one after the other, in its order.
unfoldable pub insert_all : Entries → Entries → Entries
insert_all [] m = m
insert_all ((k, v) ∷ es) m = insert_all es (insert k v m)

-- every key of the entries is less than `k`
abbrev Below : Bytes → Entries → Type 0
Below k [] = Unit
Below k ((j, w) ∷ m) = (cmp j k ≡ lt) × Below k m

insert-append : (k v : Bytes) (m : Entries) → Below k m → insert k v m ≡ m ++ ((k, v) ∷ [])
unfolding insert
insert-append k v [] b = refl
insert-append k v ((j, w) ∷ m) b = ground (arith, gt_of_lt j k, insert-append k v m)

-- all of the first list lies below all of the second
abbrev Apart : Entries → Entries → Type 0
Apart m [] = Unit
Apart m ((k, v) ∷ es) = Below k m × Apart m es

Apart-append :
    (m : Entries) (k v : Bytes) (es : Entries)
    → Apart m es
    → Above k es
    → Apart (m ++ ((k, v) ∷ [])) es
Apart-append m k v [] a h = tt
Apart-append m k v ((j, w) ∷ es) a h = (Below-append m k v j a.0 h.0, Apart-append m k v es a.1 h.1)
  where
    Below-append :
        (m : Entries) (k v j : Bytes) → Below j m → cmp k j ≡ lt → Below j (m ++ ((k, v) ∷ []))
    Below-append [] k v j b h = (h, tt)
    Below-append ((i, w) ∷ m) k v j b h = (b.0, Below-append m k v j b.1 h)

insert_all-append : (es m : Entries) → IsSorted es → Apart m es → insert_all es m ≡ m ++ es
unfolding insert_all
insert_all-append [] m s a = sym (append-nil m)
insert_all-append ((k, v) ∷ es) m s a = rw (insert-append k v m a.0) (
    insert_all-append es (m ++ ((k, v) ∷ [])) s.1 (Apart-append m k v es a.1 s.0)
    ∙ append_assoc m ((k, v) ∷ []) es)

-- Copying a sorted database into an empty one gives the same entries.
pub insert_all-sorted : (es : Entries) → IsSorted es → insert_all es [] ≡ es
insert_all-sorted es s = insert_all-append es [] s (Apart-nil es)
  where
    Apart-nil : (es : Entries) → Apart [] es
    Apart-nil [] = tt
    Apart-nil ((k, v) ∷ es) = (tt, Apart-nil es)

Above-without : (i : Bytes) (lo hi : Bound) (m : Entries) → Above i m → Above i (without lo hi m)
unfolding without
Above-without i lo hi [] a = tt
Above-without i lo hi ((j, w) ∷ m) a = ground (arith, Above-without i lo hi m a.1)

pub without-IsSorted : (lo hi : Bound) (m : Entries) → IsSorted m → IsSorted (without lo hi m)
unfolding without
without-IsSorted lo hi [] s = tt
without-IsSorted lo hi ((j, w) ∷ m) s =
    ground (arith, without-IsSorted lo hi m s.1, Above-without j lo hi m s.0)

Above-within : (i : Bytes) (lo hi : Bound) (m : Entries) → Above i m → Above i (within lo hi m)
unfolding within
Above-within i lo hi [] a = tt
Above-within i lo hi ((j, w) ∷ m) a = ground (arith, Above-within i lo hi m a.1)

pub within-IsSorted : (lo hi : Bound) (m : Entries) → IsSorted m → IsSorted (within lo hi m)
unfolding within
within-IsSorted lo hi [] s = tt
within-IsSorted lo hi ((j, w) ∷ m) s =
    ground (arith, within-IsSorted lo hi m s.1, Above-within j lo hi m s.0)
