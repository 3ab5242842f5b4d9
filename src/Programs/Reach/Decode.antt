-- ===== src/Programs/Reach/Decode.antt =====
-- Every value stored on a node that started empty decodes (`Value::decode` of d-lmdb/src/wire/values.rs), so
-- that reads of d-lmdb/src/db.rs find no corrupt one.
use d_lmdb.Base.{
  ℕ, ◌≡◌, refl, sym, subst, Bool-cases, inl, inr, Option, none, some, Result, ok, err, Result-cases,
  arith, leb,
}
use mathlib.Core.Option.{some-injective}
use mathlib.Core.Option
use d_lmdb.Bytes.{Bytes}
use d_lmdb.Lmdb.{Lmdb, IsLawful}
use d_lmdb.Wire.{Value, raw, ttl, encode_raw, encode_ttl, decode}
use d_lmdb.Machine.Types.{EngineError, LmdbStateMachine}
use d_lmdb.Machine.Scan
use d_lmdb.Machine.Apply.{delete_local, remove_key}
use d_lmdb.Machine.Apply.Spec.{reads}
use d_lmdb.Db.Types.{Error, ClientApiError, engine}
use d_lmdb.Db.Decode.{
  validate_key, validate_value, DecodedValue, present, expired, decode_live_value, live_of,
}
use d_lmdb.Db.Read
use d_lmdb.Db.Read.{DLmdb, reap, reaped, decode_and_reap, fetch_local}
use d_lmdb.Db.Read.Reap.{delete_local-reads, get-lookup}
use d_lmdb.Db.Write.{
  Request, expires_at, checked, send_unit, db_put, put_with_ttl, db_batch, db_delete, put_if_absent,
  db_compare_and_swap,
}
use d_lmdb.Programs.{Node, IsNode}
use d_lmdb.Programs.Counter.Round.{machine_of, stored}
use d_lmdb.Programs.Reach.Values.{Decodes, AllDecode, update-AllDecode, run_command-AllDecode}
use d_lmdb.Programs.Reach.{Sent, Settles, Reached}

reaped_fails :
    {L : Lmdb} (d : DLmdb L) (p : LmdbStateMachine L × Result (Unit {0}) EngineError) {e : Error}
    → (reaped d p).1 ≡ err e
    → (x : EngineError) × (e ≡ engine x)
reaped_fails d (m, ok u) h = cc
reaped_fails d (m, err x) h = (x, cc)

live_of_ok : (v : Value) (now : ℕ) → (live : DecodedValue) × (live_of (ok v) now ≡ ok live)
live_of_ok (raw p) now = (present p, refl)
live_of_ok (ttl ts p) now = elim (Bool-cases (leb ts now)) [
  | inl e ↦ (expired, rw e refl)
  | inr e ↦ (present p, rw e refl)
]

live_value :
    (b : Bytes) (v : Value) (now : ℕ)
    → decode b ≡ ok v
    → (live : DecodedValue) × (decode_live_value b now ≡ ok live)
unfolding decode_live_value
live_value b v now h = rw h (live_of_ok v now)

module _ {W : Type 0} {L : Lmdb} (laws : IsLawful L) (n : Node W L) (is : IsNode n)
    (settles : Settles n) where
  submitted-AllDecode :
      (r : Request) (w : W)
      → Sent r
      → AllDecode (stored n w)
      → AllDecode (stored n (n.submit r w).0)
  submitted-AllDecode r w sent all = elim (settles.settled r w) [
    | inl same ↦ subst AllDecode (sym same) all
    | inr done ↦ subst AllDecode (sym done) (run_command-AllDecode r (stored n w) sent all)
  ]

  -- a put after its two validations
  guarded-AllDecode :
      (a b : Result (Unit {0}) Error) (r : Request) (w : W)
      → Sent r
      → AllDecode (stored n w)
      → AllDecode (stored n (checked n.submit a (checked n.submit b (send_unit n.submit r)) w).0)
  guarded-AllDecode (err e) b r w sent all = all
  guarded-AllDecode (ok u) (err e) r w sent all = all
  guarded-AllDecode (ok u) (ok v) r w sent all = submitted-AllDecode r w sent all

  delete_local-AllDecode :
      (m : LmdbStateMachine L) (k : Bytes)
      → AllDecode (reads m)
      → AllDecode (reads (delete_local m k).0)
  unfolding delete_local
  delete_local-AllDecode m k all = elim (Result-cases (remove_key L m.env k)) [
    | inl (env, e) ↦
        subst AllDecode (sym (delete_local-reads laws m k (rw e refl)))
          (update-AllDecode (reads m) k none all tt)
    | inr (x, e) ↦ rw e all
  ]

  reaped-machine :
      (d : DLmdb L) (p : LmdbStateMachine L × Result (Unit {0}) EngineError)
      → (reaped d p).0.state_machine ≡ p.0
  reaped-machine d (m, ok u) = refl
  reaped-machine d (m, err e) = refl

  reap-AllDecode :
      (d : DLmdb L) (k : Bytes) (v : Result DecodedValue Error)
      → AllDecode (reads d.state_machine)
      → AllDecode (reads (reap d k v).0.state_machine)
  reap-AllDecode d k (ok (present p)) all = all
  reap-AllDecode d k (err e) all = all
  reap-AllDecode d k (ok expired) all =
      subst (λ m. AllDecode (reads m)) (sym (reaped-machine d (delete_local d.state_machine k)))
        (delete_local-AllDecode d.state_machine k all)

  decode_and_reap-AllDecode :
      (d : DLmdb L) (k : Bytes) (o : Option Bytes) (now : ℕ)
      → AllDecode (reads d.state_machine)
      → AllDecode (reads (decode_and_reap d k o now).0.state_machine)
  unfolding decode_and_reap
  decode_and_reap-AllDecode d k none now all = all
  decode_and_reap-AllDecode d k (some b) now all = reap-AllDecode d k (decode_live_value b now) all

  get-AllDecode :
      (d : DLmdb L) (k : Bytes) (now : ℕ)
      → AllDecode (reads d.state_machine)
      → AllDecode (reads (Read.get d k now).0.state_machine)
  unfolding Read.get
  get-AllDecode d k now all = elim (Result-cases (Scan.get d.state_machine k)) [
    | inl (o, e) ↦ rw (e, fetch_local) (decode_and_reap-AllDecode d k o now all)
    | inr (x, e) ↦ rw (e, fetch_local) all
  ]

  get_confirmed-AllDecode :
      (d : DLmdb L) (k : Bytes) (answer : Result (Option Bytes) ClientApiError) (now : ℕ)
      → AllDecode (reads d.state_machine)
      → AllDecode (reads (Read.get_confirmed d k answer now).0.state_machine)
  unfolding Read.get_confirmed
  get_confirmed-AllDecode d k (ok o) now all = decode_and_reap-AllDecode d k o now all
  get_confirmed-AllDecode d k (err e) now all = all

  kept-AllDecode :
      (d : DLmdb L) (w : W) → AllDecode (reads d.state_machine) → AllDecode (stored n (n.keep d w))
  kept-AllDecode d w all =
      subst (λ (d : DLmdb L). AllDecode (reads d.state_machine)) (sym (is.handle-keep d w)) all

  -- Every value that is stored decodes.
  pub Reached-AllDecode : (w : W) → Reached n w → AllDecode (stored n w)
  unfolding db_put put_with_ttl db_batch db_delete put_if_absent db_compare_and_swap
  Reached-AllDecode w (Reached.started _ empty) = subst AllDecode (sym empty) (λ k. tt)
  Reached-AllDecode w (Reached.put v k value r) =
      guarded-AllDecode (validate_key k (n.handle v).max_key_bytes)
        (validate_value value (n.handle v).max_value_bytes) (Request.put k (encode_raw value)) v
        (Sent.put k value) (Reached-AllDecode v r)
  Reached-AllDecode w (Reached.put_ttl v k value ttl_secs r) =
      let ts = expires_at (n.clock v) ttl_secs in
      guarded-AllDecode (validate_key k (n.handle v).max_key_bytes)
        (validate_value value (n.handle v).max_value_bytes)
        (Request.put k (encode_ttl value (some ts))) v (Sent.put_ttl k value ts (omega arith))
        (Reached-AllDecode v r)
  Reached-AllDecode w (Reached.batched v ops r) =
      submitted-AllDecode _ v (Sent.batched ops) (Reached-AllDecode v r)
  Reached-AllDecode w (Reached.deleted v k r) =
      submitted-AllDecode _ v (Sent.deleted k) (Reached-AllDecode v r)
  Reached-AllDecode w (Reached.put_absent v k value r) =
      submitted-AllDecode _ v (Sent.swapped k none value) (Reached-AllDecode v r)
  Reached-AllDecode w (Reached.swapped v k expected value r) =
      submitted-AllDecode _ v (Sent.swapped k (Option.map encode_raw expected) value)
        (Reached-AllDecode v r)
  Reached-AllDecode w (Reached.read v k r) =
      kept-AllDecode _ v (get-AllDecode (n.handle v) k (n.clock v) (Reached-AllDecode v r))
  Reached-AllDecode w (Reached.confirmed v k r) = kept-AllDecode _ (n.confirm k v).0 (
      get_confirmed-AllDecode (n.handle (n.confirm k v).0) k (n.confirm k v).1
        (n.clock (n.confirm k v).0)
        (subst AllDecode (sym (settles.confirm_keeps k v)) (Reached-AllDecode v r)))
  Reached-AllDecode w (Reached.elsewhere v _ request sent applied r) =
      subst AllDecode (sym applied)
        (run_command-AllDecode request (stored n v) sent (Reached-AllDecode v r))

  engine_only :
      (d : DLmdb L) (k : Bytes) (v : DecodedValue) {e : Error}
      → (reap d k (ok v)).1 ≡ err e
      → (x : EngineError) × (e ≡ engine x)
  engine_only d k (present p) h = cc
  engine_only d k expired h = reaped_fails d (delete_local d.state_machine k) h

  decoded_fails :
      (d : DLmdb L) (k : Bytes) (o : Option Bytes) (now : ℕ) {e : Error}
      → Decodes o
      → (decode_and_reap d k o now).1 ≡ err e
      → (x : EngineError) × (e ≡ engine x)
  unfolding decode_and_reap
  decoded_fails d k none now can h = cc
  decoded_fails d k (some b) now (v, can) h =
      let (live, e) = live_value b v now can in engine_only d k live (rw e at h)

  -- On a node that started empty, whatever its clients and those of other nodes called, and whichever
  -- calls failed, if each was applied here as a whole or not at all, a read of any key at any time
  -- finds no corrupt value: where it fails, the state machine failed.
  pub get-Reached :
      (w : W) (k : Bytes) (now : ℕ) {e : Error}
      → Reached n w
      → (Read.get (n.handle w) k now).1 ≡ err e
      → (x : EngineError) × (e ≡ engine x)
  unfolding Read.get
  get-Reached w k now r h = elim (Result-cases (Scan.get (machine_of n w) k)) [
    | inl (o, e) ↦
        decoded_fails (n.handle w) k o now
          (subst Decodes (sym (get-lookup laws (machine_of n w) k e)) (Reached-AllDecode w r k))
          (rw (e, fetch_local) at h)
    | inr (x, e) ↦ (x, cc (rw (e, fetch_local) at h))
  ]
