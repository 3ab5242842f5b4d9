-- ===== src/Machine/Apply/Spec.antt =====
-- The specification of `apply_chunk`, without transactions, cursors or errors: the log entries act one
-- after the other on a function from keys to values.
use d_lmdb.Base.{ℕ, Bool, true, false, Option, some, none, List, [], ◌∷◌, if◌then◌else◌}
use d_lmdb.Bytes.{Bytes, bytes_eq}
use d_lmdb.Store.{lookup}
use d_lmdb.Lmdb.{Lmdb, kv}
use d_lmdb.Machine.Types.{
  LogId, BatchOp, Command, compare_and_swap, batch, noop, ApplyEntry, ApplyResult, success, failure,
  LmdbStateMachine,
}

abbrev pub KeyValues : Type 0
KeyValues = Bytes → Option Bytes

abbrev pub update : KeyValues → Bytes → Option Bytes → KeyValues
update f k v j = if bytes_eq j k then v else f j

-- An absent key matches an absent expectation, a present one its own value.
abbrev pub holds : Option Bytes → Option Bytes → Bool
holds none none = true
holds none (some e) = false
holds (some c) none = false
holds (some c) (some e) = bytes_eq c e

unfoldable pub run_op : BatchOp → KeyValues → KeyValues
run_op (BatchOp.insert k v) f = update f k (some v)
run_op (BatchOp.delete k) f = update f k none

unfoldable pub run_ops : List BatchOp → KeyValues → KeyValues
run_ops [] f = f
run_ops (op ∷ ops) f = run_ops ops (run_op op f)

-- whether the command takes effect, and the state after it
unfoldable pub accepts : Command → KeyValues → Bool
accepts (compare_and_swap k expected v) f = holds (f k) expected
accepts _ f = true

unfoldable pub run_command : Command → KeyValues → KeyValues
run_command (Command.insert k v ttl) f = update f k (some v)
run_command (Command.delete k) f = update f k none
run_command (compare_and_swap k expected v) f =
    if holds (f k) expected then update f k (some v) else f
run_command (batch ops) f = run_ops ops f
run_command noop f = f

abbrev pub verdict : Bool → ℕ → ApplyResult
verdict true i = success i
verdict false i = failure i

unfoldable pub run_entries : List ApplyEntry → KeyValues → KeyValues
run_entries [] f = f
run_entries (e ∷ es) f = run_entries es (run_command e.command f)

unfoldable pub run_results : List ApplyEntry → KeyValues → List ApplyResult
run_results [] f = []
run_results (e ∷ es) f =
    verdict (accepts e.command f) e.index ∷ run_results es (run_command e.command f)

-- the id of the last entry, if there is one
unfoldable pub latest : List ApplyEntry → Option LogId → Option LogId
latest [] id = id
latest (e ∷ es) id = latest es (some (record { index = e.index; term = e.term }))

-- what the committed environment of a state machine holds
abbrev pub reads : {L : Lmdb} → LmdbStateMachine L → KeyValues
reads {L} m k = lookup k (L.contents m.env kv)
