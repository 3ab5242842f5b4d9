-- ===== src/Bytes.antt =====
-- Byte strings (`&[u8]`, `Vec<u8>`, `Bytes`) as lists of numbers, compared as Rust compares slices
-- and as LMDB's default comparator compares keys: byte by byte, a proper prefix first.
pub mod Order
pub mod Prefix
pub mod Word
use Prim.Native.Nat.{compare, Ordering}
use Prim.Native.Nat.Ordering.{lt, eq, gt}
use Prim.Native.Char.{code}
use Prim.Native.String.{String}
use d_lmdb.Base.{ℕ, ◌<◌, Bool, true, false, List, [], ◌∷◌, All, ◌==◌, ◌&&◌}

abbrev pub Bytes : Type 0
Bytes = List ℕ

abbrev pub IsBytes : Bytes → Type 0
IsBytes b = All (λ x. x < 256) b

-- the bytes of an ASCII literal
abbrev pub ascii : String → Bytes
ascii String.[] = []
ascii (String.◌∷◌ c s) = code c ∷ ascii s

unfoldable pub cmp : Bytes → Bytes → Ordering
cmp [] [] = eq
cmp [] (y ∷ ys) = lt
cmp (x ∷ xs) [] = gt
cmp (x ∷ xs) (y ∷ ys) = elim (compare x y) [ lt ↦ lt | eq ↦ cmp xs ys | gt ↦ gt ]

-- `a < b`, `a <= b` and `a == b` on slices
abbrev pub bytes_lt : Bytes → Bytes → Bool
bytes_lt a b = elim (cmp a b) [ lt ↦ true | _ ↦ false ]

abbrev pub bytes_le : Bytes → Bytes → Bool
bytes_le a b = elim (cmp a b) [ gt ↦ false | _ ↦ true ]

abbrev pub bytes_eq : Bytes → Bytes → Bool
bytes_eq a b = elim (cmp a b) [ eq ↦ true | _ ↦ false ]

-- `key.starts_with(prefix)`
unfoldable pub starts_with : Bytes → Bytes → Bool
starts_with [] k = true
starts_with (x ∷ p) [] = false
starts_with (x ∷ p) (y ∷ k) = x == y && starts_with p k
