-- ===== src/Programs/Reach.antt =====
-- The worlds that calls of `DLmdb` (d-lmdb/src/db.rs) reach on a node that started empty, with what
-- clients of other nodes write.
pub mod Values
pub mod Decode
use d_lmdb.Base.{
  ℕ, ◌^◌, ◌<◌, ◌≡◌, refl, sym, ap, subst, ◌∙◌, Bool, true, false, Bool-cases, ◌⊎◌, inl, inr, Option,
  none, some, List, [], ◌∷◌, map, Result, ok, err, Result-cases, if◌then◌else◌, arith,
}
use mathlib.Core.Option.{some-injective}
use mathlib.Core.Option
use d_lmdb.Bytes.{Bytes, bytes_eq}
use d_lmdb.Lmdb.{Lmdb, IsLawful}
use d_lmdb.Wire.{Value, raw, ttl, encode_raw, encode_ttl, decode}
use d_lmdb.Wire.RoundTrip.{decode-encode_raw, decode-encode_ttl}
use d_lmdb.Machine.Types.{BatchOp, EngineError, LmdbStateMachine, Command, compare_and_swap, batch}
use d_lmdb.Machine.Scan
use d_lmdb.Machine.Apply.{delete_local, remove_key}
use d_lmdb.Machine.Apply.Spec.{KeyValues, update, holds, run_op, run_ops, run_command, reads}
use d_lmdb.Db.Types.{Error, ClientApiError, engine}
use d_lmdb.Db.Decode.{DecodedValue, present, expired, decode_live_value, live_of}
use d_lmdb.Db.Read
use d_lmdb.Db.Read.{DLmdb, reap, reaped, decode_and_reap, fetch_local}
use d_lmdb.Db.Read.Reap.{delete_local-reads}
use d_lmdb.Db.Write.{
  Request, encode_op, expires_at, Call, checked, db_put, put_with_ttl, db_batch, db_delete,
  put_if_absent, db_compare_and_swap,
}
use d_lmdb.Db.Write.Effect.{to_command}
use d_lmdb.Programs.{Node, IsNode, get_step, confirmed_step}
use d_lmdb.Programs.Counter.Round.{machine_of, stored}

-- The requests that the methods of `DLmdb` submit. An expiry is of 64 bits.
pub data Sent : Request → Type 0 where
  put : (k v : Bytes) → Sent (Request.put k (encode_raw v))
  put_ttl : (k v : Bytes) (ts : ℕ) → ts < 2 ^ 64 → Sent (Request.put k (encode_ttl v (some ts)))
  batched : (ops : List BatchOp) → Sent (Request.batch (map encode_op ops))
  deleted : (k : Bytes) → Sent (Request.delete k)
  swapped :
      (k : Bytes) (expected : Option Bytes) (v : Bytes)
      → Sent (Request.compare_and_swap k expected (encode_raw v))

-- A call of the engine's client that succeeds or fails has been applied on this node, or it has not,
-- and a confirmed read changes nothing that is stored.
pub record Settles {W : Type 0} {L : Lmdb} (n : Node W L) : Type 0 where
  pub settled :
      (r : Request) (w : W)
      → (stored n (n.submit r w).0 ≡ stored n w)
        ⊎ (stored n (n.submit r w).0 ≡ run_command (to_command r) (stored n w))
  pub confirm_keeps : (key : Bytes) (w : W) → stored n (n.confirm key w).0 ≡ stored n w

module _ {W : Type 0} {L : Lmdb} (n : Node W L) where
  -- A node starts without values; its own client calls the methods of the handle, whose calls succeed
  -- or fail; requests that the methods send on other nodes are applied here.
  pub data Reached : W → Type 0 where
    started : (w : W) → stored n w ≡ (λ k. none) → Reached w
    put : (w : W) (k v : Bytes) → Reached w → Reached (db_put n.submit (n.handle w) k v w).0
    put_ttl :
        (w : W) (k v : Bytes) (ttl_secs : ℕ)
        → Reached w
        → Reached (put_with_ttl n.submit (n.handle w) k v ttl_secs (n.clock w) w).0
    batched :
        (w : W) (ops : List BatchOp) → Reached w → Reached (db_batch n.submit (n.handle w) ops w).0
    deleted : (w : W) (k : Bytes) → Reached w → Reached (db_delete n.submit (n.handle w) k w).0
    put_absent :
        (w : W) (k v : Bytes) → Reached w → Reached (put_if_absent n.submit (n.handle w) k v w).0
    swapped :
        (w : W) (k : Bytes) (expected : Option Bytes) (v : Bytes)
        → Reached w
        → Reached (db_compare_and_swap n.submit (n.handle w) k expected v w).0
    read : (w : W) (k : Bytes) → Reached w → Reached (get_step n k w).0
    confirmed : (w : W) (k : Bytes) → Reached w → Reached (confirmed_step n k w).0
    elsewhere :
        (w w' : W) (r : Request)
        → Sent r
        → stored n w' ≡ run_command (to_command r) (stored n w)
        → Reached w
        → Reached w'
