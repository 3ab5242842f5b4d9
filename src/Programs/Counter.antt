-- ===== src/Programs/Counter.antt =====
-- The counter of examples/single-node/single_node.rs and examples/three-node/three_node.rs: read, add
-- one, swap, and again where the swap was lost.
pub mod Round
pub mod Loop
pub mod Expiry
use d_lmdb.Base.{
  ℕ, zero, suc, ◌+◌, ◌%◌, ◌^◌, Bool, true, false, Option, none, some, Result, ok, err,
  if◌then◌else◌,
}
use d_lmdb.Bytes.{Bytes, ascii}
use d_lmdb.Lmdb.{Lmdb}
use d_lmdb.Text.{decimal}
use d_lmdb.Text.Number.{parse_u64}
use d_lmdb.Db.Types.{Error}
use d_lmdb.Db.Write.{db_compare_and_swap}
use d_lmdb.Host.{Step, ◌>>=◌, lift}
use d_lmdb.Programs.{Node}

-- the number that the bytes are read as
abbrev pub number_of : Option Bytes → Option ℕ
number_of (some b) = parse_u64 b
number_of none = none

-- in 64 bits, as a release build computes it; a debug build, which `cargo run --example` makes
-- unless it is told otherwise, panics at the greatest number instead
abbrev pub next_of : Option ℕ → Bytes
next_of (some n) = decimal ((n + 1) % 2 ^ 64)
next_of none = ascii "1"

-- `again` where the swap was lost
abbrev pub continue :
    {W : Type 0}
    → W × Result (Option Bytes) Error
    → (W → Option (W × Result Bytes Error))
    → Option (W × Result Bytes Error)
continue (w, ok (some next)) again = some (w, ok next)
continue (w, ok none) again = again w
continue (w, err e) again = some (w, err e)

module _ {W : Type 0} {L : Lmdb} (n : Node W L) (key : Bytes) where
  -- the swap of a round, and the new text if it was taken
  unfoldable pub swap : Option Bytes → Step W (Option Bytes)
  swap current = do
    swapped ←
        (λ w. db_compare_and_swap n.submit (n.handle w) key current (next_of (number_of current)) w)
    lift (ok (if swapped then some (next_of (number_of current)) else none))

  -- One round, in which other clients do `others` between the read and the swap.
  unfoldable pub round : Step W (Option Bytes) → (W → W) → Step W (Option Bytes)
  round read others = do current ← read; (λ w. swap current (others w))

  -- The loop, for so many rounds at most, with what others do in each of them, counted from the last.
  unfoldable pub increment :
      Step W (Option Bytes) → (ℕ → W → W) → ℕ → W → Option (W × Result Bytes Error)
  increment read others zero w = none
  increment read others (suc fuel) w =
      continue (round read (others fuel) w) (increment read others fuel)
