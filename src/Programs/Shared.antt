-- ===== src/Programs/Shared.antt =====
-- What both programs of examples/ do: their keys, their batch, and the steps on the handle they hold.
use d_lmdb.Base.{ℕ, Bool, List, [], ◌∷◌}
use d_lmdb.Bytes.{Bytes, ascii}
use d_lmdb.Lmdb.{Lmdb}
use d_lmdb.Machine.Types.{BatchOp}
use d_lmdb.Wal.{Codec}
use d_lmdb.Db.Write.{db_put, put_with_ttl, db_batch, db_delete, put_if_absent}
use d_lmdb.Host.{Host, Step}
use d_lmdb.Open.{Opened, close}
use d_lmdb.Programs.{Node, done, Prog}

abbrev pub user_1 : Bytes
user_1 = ascii "user:1"

abbrev pub user_2 : Bytes
user_2 = ascii "user:2"

abbrev pub views_key : Bytes
views_key = ascii "counter:views"

abbrev pub renaming : List BatchOp
renaming =
    BatchOp.insert user_1 (ascii "alice_v2")
    ∷ BatchOp.insert (ascii "idx:name:alice_v2") (ascii "1")
    ∷ BatchOp.delete (ascii "idx:name:alice")
    ∷ []

module _ {W : Type 0} {L : Lmdb} (host : Host W L) (C : Codec) (n : Node W L) where
  -- the handle that was opened is now part of the world
  abbrev pub hold : Opened host C → Prog W (Unit {0})
  hold o w = (n.keep o.db w, done tt)

  abbrev pub closing : Opened host C → Step W (Unit {0})
  closing o w = close host C (record o { db = n.handle w }) w

module _ {W : Type 0} {L : Lmdb} (n : Node W L) where
  abbrev pub putting : Bytes → Bytes → Step W (Unit {0})
  putting key value w = db_put n.submit (n.handle w) key value w

  abbrev pub putting_ttl : Bytes → Bytes → ℕ → Step W (Unit {0})
  putting_ttl key value ttl w = put_with_ttl n.submit (n.handle w) key value ttl (n.clock w) w

  abbrev pub deleting : Bytes → Step W (Unit {0})
  deleting key w = db_delete n.submit (n.handle w) key w

  abbrev pub batching : List BatchOp → Step W (Unit {0})
  batching ops w = db_batch n.submit (n.handle w) ops w

  abbrev pub putting_if_absent : Bytes → Bytes → Step W Bool
  putting_if_absent key value w = put_if_absent n.submit (n.handle w) key value w
