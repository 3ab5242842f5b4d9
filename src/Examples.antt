-- ===== src/Examples.antt =====
-- Runs of the definitions at concrete inputs, over the LMDB in memory, and the data they share.
pub mod Apply
pub mod Scan
pub mod Lifecycle
pub mod Db
pub mod Wal
pub mod Http
pub mod Conditional
pub mod Open
pub mod Programs
pub mod Server
pub mod Reach
use d_lmdb.Base.{ℕ, true, none, some, arith, List, [], ◌∷◌}
use d_lmdb.Bytes.{Bytes, cmp}
use d_lmdb.Bytes.Word.{to_le}
use d_lmdb.Store.{Entries}
use d_lmdb.Store.Sorted.{IsSorted}
use d_lmdb.Lmdb.{Lmdb, DbName, kv, meta, internal, log}
use d_lmdb.Lmdb.Memory.{memory, empty, Databases}
use d_lmdb.Machine.Types.{
  last_applied_index_key, last_applied_term_key, Command, BatchOp, compare_and_swap, batch,
  ApplyEntry, LmdbStateMachine,
}

abbrev pub key_a : Bytes
key_a = 97 ∷ []

abbrev pub key_b : Bytes
key_b = 98 ∷ []

abbrev pub idle : LmdbStateMachine memory
idle = record {
  env = empty;
  running = true;
  last_applied_index = 0;
  last_applied_term = 0;
  entry_terms = [];
  snapshot_meta = none;
  map_size = 1048576;
}

abbrev pub entry : ℕ → Command → ApplyEntry
entry i c = record { index = i; term = 1; command = c }

-- a put, a swap that is taken and a swap that is not
abbrev pub first_chunk : List ApplyEntry
first_chunk =
    entry 1 (Command.insert key_a (1 ∷ []) 0)
    ∷ entry 2 (compare_and_swap key_a (some (1 ∷ [])) (2 ∷ []))
    ∷ entry 3 (compare_and_swap key_a none (3 ∷ []))
    ∷ []

abbrev pub second_chunk : List ApplyEntry
second_chunk =
    entry 4 (batch (BatchOp.insert key_b (5 ∷ []) ∷ BatchOp.delete key_a ∷ []))
    ∷ entry 5 Command.noop
    ∷ []

-- two keys that start with `a`, one of them with an expired value, and one that does not
abbrev pub pairs : Entries
pairs =
    (97 ∷ 1 ∷ [], 0 ∷ 10 ∷ [])
    ∷ (97 ∷ 2 ∷ [], 0 ∷ 11 ∷ [])
    ∷ (key_b, 1 ∷ 0 ∷ 0 ∷ 0 ∷ 0 ∷ 0 ∷ 0 ∷ 0 ∷ 9 ∷ 12 ∷ [])
    ∷ []

pub pairs-IsSorted : IsSorted pairs
unfolding cmp
pairs-IsSorted = ground arith

abbrev pub pairs_at : DbName → Entries
pairs_at kv = pairs
pairs_at meta = (last_applied_index_key, to_le 8 7) ∷ (last_applied_term_key, to_le 8 2) ∷ []
pairs_at internal = []
pairs_at log = []

pub pairs_at-IsSorted : (d : DbName) → IsSorted (pairs_at d)
unfolding cmp
pairs_at-IsSorted kv = pairs-IsSorted
pairs_at-IsSorted meta = ground arith
pairs_at-IsSorted internal = tt
pairs_at-IsSorted log = tt

abbrev pub holding : Databases
holding = record { entries = pairs_at; sorted = pairs_at-IsSorted }

abbrev pub filled : LmdbStateMachine memory
filled = record idle { env = holding; last_applied_index = 7; last_applied_term = 2 }
