-- ===== src/Machine/Scan.antt =====
-- The reads of d-lmdb/src/state_machine.rs: `get`, `len` and the scans.
pub mod NextPrefix
pub mod Live
pub mod Forward
pub mod Ranges
pub mod Reverse
use mathlib.Core.List.{reverse}
use mathlib.Core.Option
use d_lmdb.Base.{
  ℕ, ◌+◌, ◌-◌, ◌^◌, Bool, true, false, Option, some, none, List, [], ◌∷◌, ◌++◌, Result, ok, err,
  ◌>>=◌, ltb, leb, length, drop, if◌then◌else◌,
}
use d_lmdb.Bytes.{Bytes, bytes_le}
use d_lmdb.Store.{Entries, Bound, included, excluded, unbounded}
use d_lmdb.Lmdb.{Lmdb, kv}
use d_lmdb.Machine.Types.{ScanResult, EngineError, LmdbStateMachine, lmdb_err}

-- The loop works on the end of the vector: here the list is reversed, its head is `last_mut()`.
unfoldable pub next_prefix_loop : Bytes → Option Bytes
next_prefix_loop [] = none
next_prefix_loop (b ∷ next) =
    let popped = next_prefix_loop next in if ltb b 0xFF then some ((b + 1) ∷ next) else popped

unfoldable pub next_prefix : Bytes → Option Bytes
next_prefix prefix = Option.map reverse (next_prefix_loop (reverse prefix))

abbrev pub usize_max : ℕ
usize_max = 2 ^ 64 - 1

-- `limit.unwrap_or(usize::MAX)`
abbrev pub cap_of : Option ℕ → ℕ
cap_of (some n) = n
cap_of none = usize_max

abbrev pub Filter : Type 0
Filter = Option (Bytes → Option Bytes)

-- what the filter makes of a stored value
abbrev pub filtered : Filter → Bytes → Option Bytes
filtered (some f) v = f v
filtered none v = some v

abbrev pub at_end : Option Bytes → Bytes → Bool
at_end (some e) k = bytes_le e k
at_end none k = false

abbrev pub push : Bytes → Option Bytes → Entries → Entries
push k (some payload) entries = entries ++ ((k, payload) ∷ [])
push k none entries = entries

-- the window of a reverse scan: `pop_front` when it is full, then `push_back`
abbrev pub slide : ℕ → Bytes → Option Bytes → Entries → Entries
slide cap k none window = window
slide cap k (some payload) window =
    (if leb cap (length window) then drop 1 window else window) ++ ((k, payload) ∷ [])

-- the bound that the optional `after` key sets
abbrev pub start_after : Bytes → Option Bytes → Bound
start_after prefix (some a) = excluded a
start_after prefix none = included prefix

module _ (L : Lmdb) where
  abbrev pub Items : Type 0
  Items = List (Result (Bytes × Bytes) L.HeedError)

  unfoldable pub scan_loop :
      Option Bytes → ℕ → Filter → Items → Entries → Result Entries EngineError
  scan_loop end cap filter [] entries = ok entries
  scan_loop end cap filter (item ∷ items) entries = elim (leb cap (length entries)) [
    | true ↦ ok entries
    | false ↦ elim (lmdb_err L item) [
      | err e ↦ err e
      | ok (k, v) ↦ elim (at_end end k) [
        | true ↦ ok entries
        | false ↦ scan_loop end cap filter items (push k (filtered filter v) entries)
      ]
    ]
  ]

  unfoldable pub rev_loop : ℕ → Filter → Items → Entries → Result Entries EngineError
  rev_loop cap filter [] window = ok window
  rev_loop cap filter (item ∷ items) window = elim (lmdb_err L item) [
    | err e ↦ err e
    | ok (k, v) ↦ rev_loop cap filter items (slide cap k (filtered filter v) window)
  ]

module _ {L : Lmdb} where
  unfoldable pub get : LmdbStateMachine L → Bytes → Result (Option Bytes) EngineError
  get m key = do t ← lmdb_err L (L.read_txn m.env); lmdb_err L (L.get t kv key)

  -- any failure reads as an empty database
  unfoldable pub len : LmdbStateMachine L → ℕ
  len m = elim (L.read_txn m.env) [ err e ↦ 0 | ok t ↦ elim (L.len t kv) [ ok n ↦ n | err e ↦ 0 ] ]

  unfoldable pub empty_key_guard : LmdbStateMachine L → ScanResult
  empty_key_guard m = record { entries = []; revision = m.last_applied_index }

  unfoldable pub scan_range_core :
      LmdbStateMachine L → Bound → Option Bytes → Option ℕ → Filter → Result ScanResult EngineError
  scan_range_core m start end limit filter = do
    t ← lmdb_err L (L.read_txn m.env)
    items ← lmdb_err L (L.range t kv start unbounded)
    entries ← scan_loop L end (cap_of limit) filter items []
    ok (record { entries = entries; revision = m.last_applied_index })

  unfoldable pub scan_range :
      LmdbStateMachine L → Bytes → Option Bytes → Option ℕ → Filter → Result ScanResult EngineError
  scan_range m [] end limit filter = ok (empty_key_guard m)
  scan_range m (b ∷ start) end limit filter =
      scan_range_core m (included (b ∷ start)) end limit filter

  unfoldable pub scan_all : LmdbStateMachine L → Option ℕ → Filter → Result ScanResult EngineError
  scan_all m limit filter = scan_range_core m unbounded none limit filter

  unfoldable pub scan_prefix_bounded :
      LmdbStateMachine L → Bytes → Option Bytes → Option ℕ → Filter → Result ScanResult EngineError
  scan_prefix_bounded m [] after limit filter = ok (empty_key_guard m)
  scan_prefix_bounded m (b ∷ prefix) after limit filter =
      scan_range_core m (start_after (b ∷ prefix) after) (next_prefix (b ∷ prefix)) limit filter

  -- the method of the `StateMachine` trait: no filter
  unfoldable pub scan_prefix : LmdbStateMachine L → Bytes → Result ScanResult EngineError
  scan_prefix m prefix = scan_prefix_bounded m prefix none none none

  unfoldable pub scan_range_rev :
      LmdbStateMachine L → Bytes → Bytes → Option ℕ → Filter → Result ScanResult EngineError
  scan_range_rev m [] end limit filter = ok (empty_key_guard m)
  scan_range_rev m (b ∷ start) end limit filter = do
    t ← lmdb_err L (L.read_txn m.env)
    items ← lmdb_err L (L.range t kv (included (b ∷ start)) (excluded end))
    window ← rev_loop L (cap_of limit) filter items []
    ok (record { entries = reverse window; revision = m.last_applied_index })
