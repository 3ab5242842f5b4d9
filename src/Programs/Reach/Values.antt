-- ===== src/Programs/Reach/Values.antt =====
-- The values that the requests of `DLmdb` (d-lmdb/src/db.rs) store: every one of them decodes, by the
-- round trips of d-lmdb/src/wire/values.rs.
use d_lmdb.Base.{
  ℕ, ◌^◌, ◌<◌, ◌≡◌, Bool, true, false, Bool-cases, inl, inr, Option, none, some, List, [], ◌∷◌, map,
  ok, if◌then◌else◌,
}
use d_lmdb.Bytes.{Bytes, bytes_eq}
use d_lmdb.Wire.{Value, raw, ttl, encode_raw, encode_ttl, decode}
use d_lmdb.Wire.RoundTrip.{decode-encode_raw, decode-encode_ttl}
use d_lmdb.Machine.Types.{BatchOp}
use d_lmdb.Machine.Apply.Spec.{KeyValues, update, holds, run_op, run_ops, run_command}
use d_lmdb.Db.Write.{Request, encode_op}
use d_lmdb.Db.Write.Effect.{to_command}
use d_lmdb.Programs.Reach.{Sent}

abbrev pub CanDecode : Bytes → Type 0
CanDecode b = (v : Value) × (decode b ≡ ok v)

abbrev pub Decodes : Option Bytes → Type 0
Decodes (some b) = CanDecode b
Decodes none = Unit

abbrev pub AllDecode : KeyValues → Type 0
AllDecode f = (k : Bytes) → Decodes (f k)

pub update-AllDecode :
    (f : KeyValues) (k : Bytes) (v : Option Bytes)
    → AllDecode f
    → Decodes v
    → AllDecode (update f k v)
update-AllDecode f k v all new j = elim (Bool-cases (bytes_eq j k)) [
  | inl e ↦ rw e new
  | inr e ↦ rw e (all j)
]

raw-CanDecode : (v : Bytes) → CanDecode (encode_raw v)
raw-CanDecode v = (raw v, decode-encode_raw v)

ttl-CanDecode : (v : Bytes) (ts : ℕ) → ts < 2 ^ 64 → CanDecode (encode_ttl v (some ts))
ttl-CanDecode v ts h = (ttl ts v, decode-encode_ttl v ts h)

run_ops-AllDecode :
    (ops : List BatchOp) (f : KeyValues) → AllDecode f → AllDecode (run_ops (map encode_op ops) f)
unfolding run_ops run_op
run_ops-AllDecode [] f all = all
run_ops-AllDecode (BatchOp.insert k v ∷ ops) f all =
    run_ops-AllDecode ops _ (update-AllDecode f k (some (encode_raw v)) all (raw-CanDecode v))
run_ops-AllDecode (BatchOp.delete k ∷ ops) f all =
    run_ops-AllDecode ops _ (update-AllDecode f k none all tt)

swapped-AllDecode :
    (b : Bool) (f g : KeyValues) → AllDecode f → AllDecode g → AllDecode (if b then g else f)
swapped-AllDecode true f g all new = new
swapped-AllDecode false f g all new = all

pub run_command-AllDecode :
    (r : Request) (f : KeyValues) → Sent r → AllDecode f → AllDecode (run_command (to_command r) f)
unfolding run_command
run_command-AllDecode r f (Sent.put k v) all =
    update-AllDecode f k (some (encode_raw v)) all (raw-CanDecode v)
run_command-AllDecode r f (Sent.put_ttl k v ts h) all =
    update-AllDecode f k _ all (ttl-CanDecode v ts h)
run_command-AllDecode r f (Sent.batched ops) all = run_ops-AllDecode ops f all
run_command-AllDecode r f (Sent.deleted k) all = update-AllDecode f k none all tt
run_command-AllDecode r f (Sent.swapped k expected v) all =
    swapped-AllDecode (holds (f k) expected) f _ all
      (update-AllDecode f k (some (encode_raw v)) all (raw-CanDecode v))
