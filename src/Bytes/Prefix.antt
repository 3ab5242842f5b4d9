-- ===== src/Bytes/Prefix.antt =====
-- The range of the keys with a given prefix.
use d_lmdb.Base.{
  ℕ, ◌+◌, ◌<◌, ◌≡◌, refl, Bool, true, false, Option, none, some, [], ◌∷◌, ◌&&◌, arith, ltb,
  if◌then◌else◌,
}
use d_lmdb.Bytes.{Bytes, IsBytes, cmp, bytes_le, bytes_lt, starts_with}

-- `x` in front of the successor of the rest, or the next byte where the rest has none
abbrev pub extend : ℕ → Option Bytes → Option Bytes
extend x (some q) = some (x ∷ q)
extend x none = if ltb x 255 then some ((x + 1) ∷ []) else none

-- The least byte string above all that start with `p`, if there is one.
unfoldable pub successor : Bytes → Option Bytes
successor [] = none
successor (x ∷ p) = extend x (successor p)

-- `k` lies below an optional end
abbrev pub below : Option Bytes → Bytes → Bool
below none k = true
below (some e) k = bytes_lt k e

not_below_nil : (k : Bytes) → bytes_lt k [] ≡ false
unfolding cmp
not_below_nil [] = refl
not_below_nil (y ∷ k) = refl

range_step :
    (x : ℕ) (p : Bytes) (y : ℕ) (k : Bytes) (s : Option Bytes)
    → y < 256
    → starts_with p k ≡ (bytes_le p k && below s k)
    → starts_with (x ∷ p) (y ∷ k) ≡ (bytes_le (x ∷ p) (y ∷ k) && below (extend x s) (y ∷ k))
unfolding starts_with cmp
range_step x p y k none b ih = ground (arith, not_below_nil k)
range_step x p y k (some q) b ih = ground arith

pub starts_with_range :
    (p k : Bytes) → IsBytes k → starts_with p k ≡ (bytes_le p k && below (successor p) k)
unfolding starts_with successor cmp
starts_with_range [] [] b = refl
starts_with_range [] (y ∷ k) b = refl
starts_with_range (x ∷ p) [] b = refl
starts_with_range (x ∷ p) (y ∷ k) b =
    range_step x p y k (successor p) b.0 (starts_with_range p k b.1)
