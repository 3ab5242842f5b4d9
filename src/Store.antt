-- ===== src/Store.antt =====
-- The contents of one named LMDB database: its entries in key order. This is the view by which the
-- laws of `Lmdb` state what the operations of the store do.
pub mod Sorted
pub mod Lookup
pub mod Range
use Prim.Native.Nat.Ordering.{lt, eq, gt}
use d_lmdb.Base.{Bool, true, false, List, [], ◌∷◌, Option, none, some, if◌then◌else◌, ◌&&◌}
use d_lmdb.Bytes.{Bytes, cmp, bytes_eq, bytes_lt, bytes_le}

abbrev pub Entries : Type 0
Entries = List (Bytes × Bytes)

unfoldable pub lookup : Bytes → Entries → Option Bytes
lookup k [] = none
lookup k ((j, w) ∷ m) = if bytes_eq k j then some w else lookup k m

unfoldable pub insert : Bytes → Bytes → Entries → Entries
insert k v [] = (k, v) ∷ []
insert k v ((j, w) ∷ m) = elim (cmp k j) [
  | lt ↦ (k, v) ∷ (j, w) ∷ m
  | eq ↦ (k, v) ∷ m
  | gt ↦ (j, w) ∷ insert k v m
]

unfoldable pub erase : Bytes → Entries → Entries
erase k [] = []
erase k ((j, w) ∷ m) = let rest = erase k m in if bytes_eq k j then rest else (j, w) ∷ rest

-- `std::ops::Bound<&[u8]>`
pub data Bound : Type 0 where
  included excluded : Bytes → Bound
  unbounded : Bound

abbrev pub above_start : Bound → Bytes → Bool
above_start (included s) k = bytes_le s k
above_start (excluded s) k = bytes_lt s k
above_start unbounded k = true

abbrev pub below_end : Bound → Bytes → Bool
below_end (included e) k = bytes_le k e
below_end (excluded e) k = bytes_lt k e
below_end unbounded k = true

-- the entries whose keys lie in a range, and those outside it
unfoldable pub within : Bound → Bound → Entries → Entries
within lo hi [] = []
within lo hi ((k, v) ∷ m) =
    let rest = within lo hi m in if above_start lo k && below_end hi k then (k, v) ∷ rest else rest

unfoldable pub without : Bound → Bound → Entries → Entries
without lo hi [] = []
without lo hi ((k, v) ∷ m) =
    let rest = without lo hi m in if above_start lo k && below_end hi k then rest else (k, v) ∷ rest

unfoldable pub last : Entries → Option (Bytes × Bytes)
last [] = none
last (e ∷ []) = some e
last (e ∷ f ∷ m) = last (f ∷ m)
