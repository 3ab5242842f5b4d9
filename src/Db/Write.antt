-- ===== src/Db/Write.antt =====
-- The writes of d-lmdb/src/db.rs: what they hand to the engine's client, which replicates it.
pub mod Effect
pub mod Swap
pub mod Conditional
pub mod Batch
use d_lmdb.Base.{
  ℕ, ◌+◌, ◌%◌, ◌^◌, Bool, Option, some, none, List, [], ◌∷◌, map, Result, ok, err, ◌>>=◌, map_err,
  map_ok,
}
use mathlib.Core.Option
use d_lmdb.Bytes.{Bytes}
use d_lmdb.Lmdb.{Lmdb}
use d_lmdb.Wire.{encode_raw, encode_ttl}
use d_lmdb.Machine.Types.{BatchOp}
use d_lmdb.Db.Types.{Error, client, ClientApiError}
use d_lmdb.Db.Decode.{validate_key, validate_value}
use d_lmdb.Db.Read.{DLmdb}

-- the calls of `ClientApi` that write
pub data Request : Type 0 where
  put : Bytes → Bytes → Request
  delete : Bytes → Request
  batch : List BatchOp → Request
  compare_and_swap : Bytes → Option Bytes → Bytes → Request

abbrev pub encode_op : BatchOp → BatchOp
encode_op (BatchOp.insert key value) = BatchOp.insert key (encode_raw value)
encode_op (BatchOp.delete key) = BatchOp.delete key

-- `unix_now_secs() + ttl_secs` in 64 bits, as a release build computes it
abbrev pub expires_at : ℕ → ℕ → ℕ
expires_at now ttl_secs = (now + ttl_secs) % 2 ^ 64

-- The engine: a call changes the cluster, and answers whether a swap was applied.
module _ {W : Type 0} (submit : Request → W → W × Result Bool ClientApiError) where
  abbrev pub Call : Type 0 → Type 0
  Call A = W → W × Result A Error

  abbrev pub send : Request → Call Bool
  send r w = let (w', answer) = submit r w in (w', map_err client answer)

  abbrev pub send_unit : Request → Call (Unit {0})
  send_unit r w = let (w', answer) = submit r w in (w', map_ok (λ _. tt) (map_err client answer))

  -- the validations come first, and an error of theirs ends the call
  abbrev pub checked : Result (Unit {0}) Error → Call (Unit {0}) → Call (Unit {0})
  checked (ok u) call w = call w
  checked (err e) call w = (w, err e)

  module _ {L : Lmdb} (d : DLmdb L) where
    unfoldable pub db_put : Bytes → Bytes → Call (Unit {0})
    db_put key value =
        checked (validate_key key d.max_key_bytes) (
          checked (validate_value value d.max_value_bytes) (send_unit (put key (encode_raw value))))

    unfoldable pub put_with_ttl : Bytes → Bytes → ℕ → ℕ → Call (Unit {0})
    put_with_ttl key value ttl_secs now = checked (validate_key key d.max_key_bytes) (
        checked (validate_value value d.max_value_bytes)
          (send_unit (put key (encode_ttl value (some (expires_at now ttl_secs))))))

    unfoldable pub db_batch : List BatchOp → Call (Unit {0})
    db_batch ops = send_unit (batch (map encode_op ops))

    unfoldable pub db_delete : Bytes → Call (Unit {0})
    db_delete key = send_unit (delete key)

    unfoldable pub put_if_absent : Bytes → Bytes → Call Bool
    put_if_absent key value = send (compare_and_swap key none (encode_raw value))

    unfoldable pub db_compare_and_swap : Bytes → Option Bytes → Bytes → Call Bool
    db_compare_and_swap key expected new_value =
        send (compare_and_swap key (Option.map encode_raw expected) (encode_raw new_value))
