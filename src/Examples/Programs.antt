-- ===== src/Examples/Programs.antt =====
-- Runs of the programs of examples/, over a world that is the handle alone.
use d_lmdb.Base.{
  ℕ, zero, suc, ◌≡◌, ◌≢◌, refl, ap, true, some, none, Option, Result-cases, inl, inr, [], ◌∷◌,
  Result, ok, arith,
}
use d_lmdb.Bytes.{Bytes, ascii, cmp}
use d_lmdb.Bytes.Word.{to_be}
use d_lmdb.Store.{lookup, insert, erase}
use d_lmdb.Lmdb.Memory.{memory, empty, memory-IsLawful}
use d_lmdb.Text.{decimal}
use d_lmdb.Text.Number.{parse_u64, checked_value}
use d_lmdb.Wire.{encode_raw, encode_ttl, decode}
use d_lmdb.Machine.Scan
use d_lmdb.Machine.Apply
use d_lmdb.Machine.Apply.{apply_entries, apply_command, finish_chunk, apply_chunk, term_insert}
use d_lmdb.Machine.Apply.Spec.{reads}
use d_lmdb.Db.Types.{Error}
use d_lmdb.Db.Decode.{decode_live_value}
use d_lmdb.Db.Read.{DLmdb, get, decode_and_reap}
use d_lmdb.Db.Read
use d_lmdb.Programs
use d_lmdb.Db.Decode
use d_lmdb.Db.Write.{Request, db_put, db_batch, db_delete, db_compare_and_swap}
use d_lmdb.Db.Write.Effect.{Commits, to_command}
use d_lmdb.Db.Write.Swap.{Reports}
use d_lmdb.Db.Read.Race.{one}
use d_lmdb.Host.{Host, ◌>>=◌}
use d_lmdb.Programs.{Node, IsNode, get_step, Outcome, done, panicked, running}
use d_lmdb.Programs.Counter.{swap, round, increment}
use d_lmdb.Programs.Counter.Round.{machine_of, stored, get_step-ReadsPlain}
use d_lmdb.Programs.Counter.Loop.{HoldsPlain, Counted, increment_counts}
use d_lmdb.Programs.Counter.Expiry.{increment_livelocks}
use d_lmdb.Open.Cluster.{Cluster}
use d_lmdb.Programs.SingleNode.{writing, counting, single_node}
use d_lmdb.Programs.SingleNode.Ends.{Counts, writing-Counts, single_node_ends}
use d_lmdb.Examples.Wal.{plain}
use d_lmdb.Examples.{idle, filled, key_b}
use d_lmdb.Examples.Db.{db}
use d_lmdb.Examples.Conditional.{submit, reports}
use d_lmdb.Programs.Shared.{views_key}
use d_lmdb.Programs.ThreeNode.{racing}
use d_lmdb.Programs.ThreeNode.Ends.{Confirms, racing_ends}
use d_lmdb.Base.{sym, ok-injective}

abbrev pub World : Type 0
World = DLmdb memory

-- a node at the time 8, in a cluster of its own
abbrev pub node : Node World memory
node = record {
  handle = λ d. d;
  keep = λ d w. d;
  clock = λ w. 8;
  submit =
      λ r d. let (m, answer) = submit r d.state_machine in (record d { state_machine = m }, answer);
  confirm = λ key d. (d, ok (reads d.state_machine key));
}

pub node-IsNode : IsNode node
node-IsNode = record { handle-keep = λ d w. refl; clock-keep = λ d w. omega arith }

node-Reports : Reports (machine_of node) node.submit
node-Reports = record { swaps = λ k e v w h. reports.swaps k e v w.state_machine h }

-- the counter at 41, as another client leaves it
abbrev raced : World
raced = (node.submit (Request.put views_key (encode_raw (ascii "41"))) (db idle)).0

raced_held : stored node raced views_key ≡ some (encode_raw (ascii "41"))
unfolding apply_chunk finish_chunk apply_entries apply_command term_insert lookup cmp encode_raw
    insert
raced_held = refl

raced_plain : HoldsPlain node views_key raced
raced_plain = (some (ascii "41"), raced_held)

nothing_held : HoldsPlain node views_key (db idle)
unfolding lookup
nothing_held = (none, refl)

-- the other client comes in all rounds but the last
abbrev others : ℕ → World → World
others zero w = w
others (suc i) w = raced

others-HoldsPlain :
    (i : ℕ) (w : World) → HoldsPlain node views_key w → HoldsPlain node views_key (others i w)
others-HoldsPlain zero w h = h
others-HoldsPlain (suc i) w h = raced_plain

node-Confirms : Confirms node
node-Confirms = record {
  confirm_reads = λ key w h. sym (ok-injective _ _ h);
  confirm_keeps = λ key w. refl;
}

racing_ends_example : (racing node others 3 (db idle)).1 ≡ done tt
racing_ends_example =
    racing_ends memory-IsLawful node node-IsNode node-Confirms node-Reports others 3 0 (db idle)
      others-HoldsPlain (λ v. refl) nothing_held (omega arith)

abbrev run : Option (World × Result Bytes Error)
run = increment node views_key (get_step node views_key) others 3 (db idle)

run_ok : (w : World) × (run ≡ some (w, ok (ascii "42")))
unfolding increment round swap ◌>>=◌ get decode_and_reap decode_live_value decode
    db_compare_and_swap apply_chunk finish_chunk apply_entries apply_command term_insert lookup cmp
    encode_raw decimal parse_u64 checked_value Scan.get insert
run_ok = (_, refl)

increment_counts_example : Counted node views_key others 3 (db idle) run_ok.0 (ascii "42")
increment_counts_example =
    increment_counts memory-IsLawful node node-Reports views_key (get_step node views_key)
      (get_step-ReadsPlain memory-IsLawful node node-IsNode views_key) others 3 (db idle)
      others-HoldsPlain nothing_held run_ok.1

held_ttl : stored node (db filled) key_b ≡ some (encode_ttl (12 ∷ []) (some 9))
unfolding lookup cmp encode_ttl to_be
held_ttl = refl

increment_livelocks_example :
    increment node key_b (get_step node key_b) (λ i w. w) 100 (db filled)
    ≢ some (db filled, ok (ascii "1"))
increment_livelocks_example =
    increment_livelocks memory-IsLawful node node-IsNode node-Reports key_b (12 ∷ []) 9
      (omega arith) (λ i w. w) 100 (db filled) (λ j v h. h) (λ v. omega arith) held_ttl

node-Commits : Commits (machine_of node) node.submit
node-Commits = record {
  applies = λ r w h. elim (Result-cases (apply_chunk w.state_machine (one 1 1 (to_command r))).1) [
    | inl (rs, e) ↦
        (1, 1, rs, ap (λ x. ((apply_chunk w.state_machine (one 1 1 (to_command r))).0, x)) e)
    | inr (x, e) ↦ cc (rw e at h)
  ];
}

-- no files, no locks, and an engine that always starts
abbrev host : Host World memory
host = record {
  File = Unit {0};
  Engine = Unit {0};
  RaftNodeConfig = Unit {0};
  join = λ a b. b;
  shown = λ b. b;
  create_dir_all = λ p w. (w, ok tt);
  open_file = λ p w. (w, ok tt);
  try_lock = λ f w. (w, ok tt);
  drop_file = λ f w. w;
  open_env = λ size dbs p w. (w, ok empty);
  drop_env = λ env w. w;
  raft_config = λ w. (w, ok tt);
  start_node = λ p wal m rc w. (w, ok tt);
  start_custom = λ p wal m c w. (w, ok tt);
  stop = λ e w. (w, ok tt);
}

abbrev cluster : Cluster host
cluster = record {
  LeaderInfo = ℕ;
  leader_id = λ l. l;
  wait_ready = λ e t w. (w, ok tt);
  leader_info = λ e w. some 1;
  is_leader = λ e w. true;
  membership = λ e w. record { members = 1 ∷ []; learners = []; committed_index = 0 };
}

-- a handle with room for the program's keys and values
abbrev roomy : World
roomy = record { state_machine = idle; max_key_bytes = 512; max_value_bytes = 1024 }

single_node_ends_example :
    ((single_node host plain cluster node 1 roomy).1 ≢ panicked)
    × ((single_node host plain cluster node 1 roomy).1 ≢ running)
single_node_ends_example =
    single_node_ends memory-IsLawful node node-IsNode node-Commits node-Reports host plain cluster 1
      roomy (omega arith)

-- no call fails here
written : (writing node 1 roomy).1 ≡ done tt
unfolding writing Programs.◌>>=◌ db_put Decode.validate_key Decode.validate_value Read.exists get
    db_batch db_compare_and_swap db_delete counting increment round swap ◌>>=◌ decode_and_reap
    decode_live_value decode apply_chunk finish_chunk apply_entries apply_command term_insert lookup
    cmp encode_raw insert decimal parse_u64 checked_value Scan.get Apply.remove_key erase
    Apply.apply_op Apply.apply_ops
written = refl

writing-Counts_example : Counts node (ascii "1001") (writing node 1 roomy).0
writing-Counts_example =
    writing-Counts memory-IsLawful node node-IsNode node-Commits node-Reports 1 roomy (omega arith)
      written
