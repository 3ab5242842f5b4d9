-- ===== src/Bytes/Word.antt =====
-- `u64::to_be_bytes`, `from_be_bytes`, `to_le_bytes` and `from_le_bytes`, for any number of bytes.
use Prim.Native.Nat.{compare}
use native.Mathlib.Nat.{pow-suc, mod-lt, div-add-mod'}
use d_lmdb.Base.{
  ℕ, zero, suc, ◌+◌, ◌*◌, ◌/◌, ◌%◌, ◌^◌, ◌<◌, ◌≡◌, refl, ap, take, [], ◌∷◌, arith, length,
}
use d_lmdb.Bytes.{Bytes, IsBytes, cmp}

unfoldable pub to_be : ℕ → ℕ → Bytes
to_be zero n = []
to_be (suc w) n = (n / 256 ^ w) ∷ to_be w (n % 256 ^ w)

unfoldable pub from_be : Bytes → ℕ
from_be [] = 0
from_be (b ∷ bs) = b * 256 ^ length bs + from_be bs

unfoldable pub to_le : ℕ → ℕ → Bytes
to_le zero n = []
to_le (suc w) n = (n % 256) ∷ to_le w (n / 256)

unfoldable pub from_le : Bytes → ℕ
from_le [] = 0
from_le (b ∷ bs) = b + 256 * from_le bs

pub length-to_be : (w n : ℕ) → length (to_be w n) ≡ w
unfolding to_be
length-to_be zero n = refl
length-to_be (suc w) n = omega (arith, length-to_be w (n % 256 ^ w))

pub length-to_le : (w n : ℕ) → length (to_le w n) ≡ w
unfolding to_le
length-to_le zero n = refl
length-to_le (suc w) n = omega (arith, length-to_le w (n / 256))

pub pow_pos : (w : ℕ) → 0 < 256 ^ w
pow_pos zero = omega arith
pow_pos (suc w) = omega (arith, pow-suc 256 w, pow_pos w)

pub from_le-to_le : (w n : ℕ) → n < 256 ^ w → from_le (to_le w n) ≡ n
unfolding to_le from_le
from_le-to_le zero n h = omega arith
from_le-to_le (suc w) n h = omega (arith, from_le-to_le w (n / 256) (omega (arith, pow-suc 256 w)))

pub from_be-to_be : (w n : ℕ) → n < 256 ^ w → from_be (to_be w n) ≡ n
unfolding to_be from_be
from_be-to_be zero n h = omega arith
from_be-to_be (suc w) n h =
    rw (length-to_be w (n % 256 ^ w), from_be-to_be w (n % 256 ^ w) (mod-lt n (pow_pos w)))
      (div-add-mod' n (256 ^ w))

quotient_digit : (b n : ℕ) → 0 < b → n < 256 * b → n / b < 256
quotient_digit b n p h = grind arith

-- Big-endian keys of one width sort as the numbers do.
split_compare : (b m n : ℕ) → 0 < b → m / b ≡ n / b → compare (m % b) (n % b) ≡ compare m n
split_compare b m n p h = grind arith

split_lt : (b m n : ℕ) → 0 < b → m / b < n / b → m < n
split_lt b m n p h = grind arith

pub cmp-to_be : (w m n : ℕ) → m < 256 ^ w → n < 256 ^ w → cmp (to_be w m) (to_be w n) ≡ compare m n
unfolding to_be cmp
cmp-to_be zero m n h k = ground arith
cmp-to_be (suc w) m n h k = ground (
  arith,
  cmp-to_be w (m % 256 ^ w) (n % 256 ^ w),
  mod-lt m (pow_pos w),
  mod-lt n (pow_pos w),
  pow_pos w,
  split_compare (256 ^ w) m n,
  split_lt (256 ^ w) m n,
  split_lt (256 ^ w) n m,
)

pub from_be-lt : (bs : Bytes) → IsBytes bs → from_be bs < 256 ^ length bs
unfolding from_be
from_be-lt [] h = omega arith
from_be-lt (b ∷ bs) h =
    grind (arith, from_be-lt bs h.1, pow-suc 256 (length bs), pow_pos (length bs))

-- the quotient and the remainder of a number written with a digit in front
split_digit : (b d r : ℕ) → r < b → ((d * b + r) / b ≡ d) × ((d * b + r) % b ≡ r)
split_digit b d r h = grind arith

pub to_be-from_be : (bs : Bytes) → IsBytes bs → to_be (length bs) (from_be bs) ≡ bs
unfolding to_be from_be
to_be-from_be [] h = refl
to_be-from_be (b ∷ bs) h =
    let (q, r) = split_digit (256 ^ length bs) b (from_be bs) (from_be-lt bs h.1) in
    rw (q, r) (ap (λ t. b ∷ t) (to_be-from_be bs h.1))

pub IsBytes-take : (n : ℕ) (bs : Bytes) → IsBytes bs → IsBytes (take n bs)
IsBytes-take zero bs h = tt
IsBytes-take (suc n) [] h = tt
IsBytes-take (suc n) (b ∷ bs) h = (h.0, IsBytes-take n bs h.1)
