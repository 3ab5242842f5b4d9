-- ===== src/Examples/Reach.antt =====
-- A run of calls on a node that started empty, with a read that fails.
use d_lmdb.Base.{◌≡◌, refl, ap, inl, inr, [], ◌∷◌, err, Result-cases}
use d_lmdb.Store.{lookup}
use d_lmdb.Lmdb.{kv}
use d_lmdb.Lmdb.Memory.{memory-IsLawful}
use d_lmdb.Machine.Types.{EngineError}
use d_lmdb.Machine.Scan
use d_lmdb.Machine.Apply.{apply_chunk}
use d_lmdb.Machine.Apply.Chunk.{apply_chunk-Refines}
use d_lmdb.Machine.Apply.Failure.{apply_chunk-atomic}
use d_lmdb.Machine.Apply.Spec.{run_entries}
use d_lmdb.Db.Types.{Error, engine}
use d_lmdb.Db.Read.{get}
use d_lmdb.Db.Read.Race.{one}
use d_lmdb.Db.Write.{put_with_ttl}
use d_lmdb.Db.Write.Effect.{to_command}
use d_lmdb.Programs.{get_step}
use d_lmdb.Programs.Reach.{Settles, Reached}
use d_lmdb.Programs.Reach.Decode.{get-Reached}
use d_lmdb.Examples.{idle, key_a}
use d_lmdb.Examples.Db.{db}
use d_lmdb.Examples.Programs.{World, node, node-IsNode}

node-Settles : Settles node
unfolding run_entries
node-Settles = record {
  settled = λ r w. elim (Result-cases (apply_chunk w.state_machine (one 1 1 (to_command r))).1) [
    | inl (rs, e) ↦
        inr (apply_chunk-Refines memory-IsLawful w.state_machine (one 1 1 (to_command r)) e).keys
    | inr (x, e) ↦ inl (
        ap (λ t k. lookup k (t.entries kv))
          (apply_chunk-atomic w.state_machine (one 1 1 (to_command r)) e).env)
  ];
  confirm_keeps = λ key w. refl;
}

-- a put with a time to live, and a read of it
abbrev written : World
written = (put_with_ttl node.submit (db idle) key_a (5 ∷ []) 60 8 (db idle)).0

abbrev later : World
later = (get_step node key_a written).0

later-Reached : Reached node later
unfolding lookup
later-Reached =
    Reached.read written key_a
      (Reached.put_ttl (db idle) key_a (5 ∷ []) 60 (Reached.started (db idle) refl))

-- LMDB refuses the empty key
refused : (e : Error) × ((get (node.handle later) [] 9).1 ≡ err e)
unfolding get Scan.get
refused = (_, refl)

get-Reached_example : (x : EngineError) × (refused.0 ≡ engine x)
get-Reached_example =
    get-Reached memory-IsLawful node node-IsNode node-Settles later [] 9 later-Reached refused.1
