-- ===== src/Text.antt =====
-- What the program uses of Rust's strings, which are the UTF-8 bytes of their text: the decimal
-- form of an unsigned number, as `{}` and `to_string` write it, and `rsplit_once` at an ASCII byte.
pub mod Decimal
pub mod Split
pub mod Number
use d_lmdb.Base.{
  ℕ, zero, suc, ◌+◌, ◌-◌, ◌*◌, ◌/◌, ◌%◌, ◌==◌, Bool, Option, some, none, List, [], ◌∷◌, ◌++◌, ltb,
  if◌then◌else◌,
}
use d_lmdb.Bytes.{Bytes, ascii}

-- at most `fuel` digits, the last one first
unfoldable pub digits : ℕ → ℕ → Bytes
digits zero n = []
digits (suc fuel) n =
    let more = digits fuel (n / 10) ++ ((48 + n % 10) ∷ []) in
    if ltb n 10 then (48 + n) ∷ [] else more

-- 20 digits are enough for 64 bits
unfoldable pub decimal : ℕ → Bytes
unfolding digits
decimal n = digits 20 n

-- the number that decimal digits stand for
unfoldable pub value_from : ℕ → Bytes → ℕ
value_from acc [] = acc
value_from acc (c ∷ s) = value_from (acc * 10 + (c - 48)) s

-- the text before the last `c`, and the text after it
unfoldable pub rsplit_once : ℕ → Bytes → Option (Bytes × Bytes)
rsplit_once c [] = none
rsplit_once c (x ∷ s) = elim (rsplit_once c s) [
  | some (a, b) ↦ some (x ∷ a, b)
  | none ↦ if x == c then some ([], s) else none
]
