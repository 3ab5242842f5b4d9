-- ===== src/Wal/Tail.antt =====
-- The last key of a log: what `index_of` makes of it in d-lmdb/src/storage_engine.rs.
use Prim.Native.Nat.Ordering.{lt, eq, gt}
use d_lmdb.Base.{ℕ, ◌<◌, ◌≤◌, ◌^◌, ◌==◌, ◌≡◌, refl, sym, ap, ◌∙◌, false, some, none, [], ◌∷◌, arith}
use d_lmdb.Bytes.{Bytes, cmp, bytes_eq}
use d_lmdb.Bytes.Word.{to_be, length-to_be, from_be-to_be, cmp-to_be}
use d_lmdb.Store.{Entries, Bound, insert, without, last, lookup}
use d_lmdb.Store.Sorted.{IsSorted}
use d_lmdb.Wal.{index_of}
use d_lmdb.Wal.Log.{bytes_eq-to_be}

-- the key of an index of 64 bits up to `n`
pub record IsKey (n : ℕ) (k : Bytes) : Type 0 where
  pub index : ℕ
  pub in_range : index < 2 ^ 64
  pub spelled : k ≡ to_be 8 index
  pub up_to : index ≤ n

abbrev pub Covers : ℕ → Entries → Type 0
Covers n [] = Unit
Covers n ((k, v) ∷ m) = IsKey n k × Covers n m

IsKey-mono : (n p : ℕ) (k : Bytes) → n ≤ p → IsKey n k → IsKey p k
IsKey-mono n p k h key = record {
  index = key.index;
  in_range = key.in_range;
  spelled = key.spelled;
  up_to = let below = key.up_to in omega arith;
}

pub Covers-mono : (n p : ℕ) (m : Entries) → n ≤ p → Covers n m → Covers p m
Covers-mono n p [] h c = tt
Covers-mono n p ((k, v) ∷ m) h c = (IsKey-mono n p k h c.0, Covers-mono n p m h c.1)

pub Covers-insert :
    (n : ℕ) (k v : Bytes) (m : Entries) → IsKey n k → Covers n m → Covers n (insert k v m)
unfolding insert
Covers-insert n k v [] key c = (key, tt)
Covers-insert n k v ((j, w) ∷ m) key c =
    elim (cmp k j)
      as (λ o. Covers n (elim o as (λ _. Entries) [
        | lt ↦ (k, v) ∷ (j, w) ∷ m
        | eq ↦ (k, v) ∷ m
        | gt ↦ (j, w) ∷ insert k v m
      ])) [ lt ↦ (key, c) | eq ↦ (key, c.1) | gt ↦ (c.0, Covers-insert n k v m key c.1) ]

pub Covers-without : (n : ℕ) (lo hi : Bound) (m : Entries) → Covers n m → Covers n (without lo hi m)
unfolding without
Covers-without n lo hi [] c = tt
Covers-without n lo hi ((k, v) ∷ m) c = ground (arith, Covers-without n lo hi m c.1)

index_of-to_be : (i : ℕ) (k v : Bytes) → i < 2 ^ 64 → k ≡ to_be 8 i → index_of (some (k, v)) ≡ i
index_of-to_be i k v h spelled =
    ap (λ b. index_of (some (b, v))) spelled ∙ rw (length-to_be 8 i) (from_be-to_be 8 i h)

lt_of_cmp : (i j : ℕ) → i < 2 ^ 64 → j < 2 ^ 64 → cmp (to_be 8 i) (to_be 8 j) ≡ lt → i < j
lt_of_cmp i j h k less = ground (arith, cmp-to_be 8 i j h k)

-- The last key of a sorted log covers it.
pub Covers-last : (n : ℕ) (m : Entries) → IsSorted m → Covers n m → Covers (index_of (last m)) m
unfolding last
Covers-last n [] s c = tt
Covers-last n ((k, v) ∷ []) s c =
    let same = index_of-to_be c.0.index k v c.0.in_range c.0.spelled in
    (
      record {
        index = c.0.index;
        in_range = c.0.in_range;
        spelled = c.0.spelled;
        up_to = omega arith;
      },
      tt,
    )
Covers-last n ((k, v) ∷ (j, w) ∷ m) s c =
    let rest = Covers-last n ((j, w) ∷ m) s.1 c.1 in
    let below = lt_of_cmp c.0.index rest.0.index c.0.in_range rest.0.in_range (
      ap (λ x. cmp x (to_be 8 rest.0.index)) (sym c.0.spelled)
      ∙ ap (cmp k) (sym rest.0.spelled)
      ∙ s.0.0) in
    let above = rest.0.up_to in
    (
      record {
        index = c.0.index;
        in_range = c.0.in_range;
        spelled = c.0.spelled;
        up_to = omega arith;
      },
      rest,
    )

pub lookup-Covers :
    (n j : ℕ) (m : Entries) → j < 2 ^ 64 → n < j → Covers n m → lookup (to_be 8 j) m ≡ none
unfolding lookup
lookup-Covers n j [] h above c = refl
lookup-Covers n j ((k, v) ∷ m) h above c =
    let up_to = c.0.up_to in
    let other : (j == c.0.index) ≡ false = ground arith in
    rw (ap (bytes_eq (to_be 8 j)) c.0.spelled ∙ bytes_eq-to_be j c.0.index h c.0.in_range ∙ other)
      (lookup-Covers n j m h above c.1)
