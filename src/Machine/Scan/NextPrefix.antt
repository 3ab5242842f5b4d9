-- ===== src/Machine/Scan/NextPrefix.antt =====
-- The end of the range of keys with a prefix, in d-lmdb/src/state_machine.rs.
use mathlib.Core.List.{reverse, reverse-append}
use mathlib.Core.Option
use d_lmdb.Base.{
  ℕ, ◌+◌, ◌≡◌, refl, ap, ◌∙◌, Option, some, none, [], ◌∷◌, ◌++◌, arith, ltb, if◌then◌else◌,
}
use d_lmdb.Bytes.{Bytes}
use d_lmdb.Bytes.Prefix.{successor, extend}
use d_lmdb.Machine.Scan.{next_prefix_loop, next_prefix}

-- one more byte at the front of the prefix
abbrev at_front : ℕ → Option Bytes → Option Bytes
at_front x (some r) = some (r ++ (x ∷ []))
at_front x none = if ltb x 255 then some ((x + 1) ∷ []) else none

loop-append :
    (r : Bytes) (x : ℕ) → next_prefix_loop (r ++ (x ∷ [])) ≡ at_front x (next_prefix_loop r)
unfolding next_prefix_loop
loop-append [] x = refl
loop-append (b ∷ r) x = ground (arith, loop-append r x)

reverse-at_front :
    (x : ℕ) (o : Option Bytes) → Option.map reverse (at_front x o) ≡ extend x (Option.map reverse o)
reverse-at_front x none = ground arith
reverse-at_front x (some r) = ap some (reverse-append r (x ∷ []))

-- `next_prefix`, which takes bytes 255 off the end of the prefix until it can add one to a byte,
-- computes for every prefix its `successor`, which is defined from the front: the successor of
-- the rest, or else the first byte plus one, if that is a byte.
pub next_prefix-eq-successor : (p : Bytes) → next_prefix p ≡ successor p
unfolding next_prefix successor next_prefix_loop
next_prefix-eq-successor [] = refl
next_prefix-eq-successor (x ∷ p) =
    ap (λ q. Option.map reverse (next_prefix_loop q)) (reverse-append (x ∷ []) p)
    ∙ ap (Option.map reverse) (loop-append (reverse p) x)
    ∙ reverse-at_front x (next_prefix_loop (reverse p))
    ∙ ap (extend x) (next_prefix-eq-successor p)
