-- ===== src/Text/Number.antt =====
-- `str::parse::<u64>` of Rust: an optional plus sign, then decimal digits of a number in 64 bits.
use d_lmdb.Base.{
  ℕ, ◌+◌, ◌-◌, ◌*◌, ◌/◌, ◌%◌, ◌++◌, ◌^◌, ◌<◌, ◌≤◌, ◌≡◌, ◌≢◌, refl, ap, ◌∙◌, ◌==◌, ◌&&◌, Bool,
  Option, some, none, [], ◌∷◌, All, arith, ltb, leb, if◌then◌else◌, suc, Bool-cases, inl, inr,
}
use d_lmdb.Bytes.{Bytes}
use d_lmdb.Text.{digits, decimal, value_from}
use d_lmdb.Text.Decimal.{IsDigit, decimal-IsDigit, value_from-decimal}

abbrev pub is_digit : ℕ → Bool
is_digit c = leb b'0' c && leb c b'9'

-- `checked_mul(10)` and `checked_add`
unfoldable pub checked_value : ℕ → Bytes → Option ℕ
checked_value acc [] = some acc
checked_value acc (c ∷ s) =
    let rest = checked_value (acc * 10 + (c - b'0')) s in
    if is_digit c && ltb (acc * 10 + (c - b'0')) (2 ^ 64) then rest else none

-- the digits after the sign, of which there is one at least
abbrev pub some_digits : Bytes → Option ℕ
some_digits [] = none
some_digits (c ∷ s) = checked_value 0 (c ∷ s)

unfoldable pub parse_u64 : Bytes → Option ℕ
parse_u64 [] = none
parse_u64 (c ∷ s) = if c == b'+' then some_digits s else checked_value 0 (c ∷ s)

value_from-ge : (acc : ℕ) (s : Bytes) → acc ≤ value_from acc s
unfolding value_from
value_from-ge acc [] = omega arith
value_from-ge acc (c ∷ s) = omega (arith, value_from-ge (acc * 10 + (c - 48)) s)

checked_value-digits :
    (acc : ℕ) (s : Bytes)
    → All IsDigit s
    → value_from acc s < 2 ^ 64
    → checked_value acc s ≡ some (value_from acc s)
unfolding checked_value value_from
checked_value-digits acc [] d h = refl
checked_value-digits acc (c ∷ s) d h =
    let below = value_from-ge (acc * 10 + (c - 48)) s in
    ground (arith, checked_value-digits (acc * 10 + (c - 48)) s d.1 h)

parse_u64-digits :
    (s : Bytes)
    → s ≢ []
    → All IsDigit s
    → value_from 0 s < 2 ^ 64
    → parse_u64 s ≡ some (value_from 0 s)
unfolding parse_u64
parse_u64-digits [] n d h = absurd (n refl)
parse_u64-digits (c ∷ s) n d h = ground (arith, checked_value-digits 0 (c ∷ s) d h)

snoc-ne-nil : (xs : Bytes) (x : ℕ) → xs ++ (x ∷ []) ≢ []
snoc-ne-nil [] x h = cc
snoc-ne-nil (y ∷ xs) x h = cc

digits-ne-nil : (fuel n : ℕ) → digits (suc fuel) n ≢ []
unfolding digits
digits-ne-nil fuel n = elim (Bool-cases (ltb n 10)) [
  | inl one ↦ rw one (λ h. cc)
  | inr more ↦ rw more (snoc-ne-nil (digits fuel (n / 10)) (48 + n % 10))
]

decimal-ne-nil : (n : ℕ) → decimal n ≢ []
unfolding decimal
decimal-ne-nil n = unfolded n
  where
    unfolded : (n : ℕ) → digits 20 n ≢ []
    unfolded n = digits-ne-nil 19 n

-- The decimal text of a number in 64 bits is parsed as it.
pub parse_u64-decimal : (n : ℕ) → n < 2 ^ 64 → parse_u64 (decimal n) ≡ some n
parse_u64-decimal n h =
    let value = value_from-decimal n h in
    parse_u64-digits (decimal n) (decimal-ne-nil n) (decimal-IsDigit n) (omega arith)
    ∙ ap some value
