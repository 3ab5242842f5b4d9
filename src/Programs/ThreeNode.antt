-- ===== src/Programs/ThreeNode.antt =====
-- `main` of examples/three-node/three_node.rs. What is only printed, the leader and the members too,
-- is left out.
pub mod Ends
use d_lmdb.Base.{ℕ, Option, none, some, Result}
use d_lmdb.Bytes.{Bytes, ascii}
use d_lmdb.Lmdb.{Lmdb}
use d_lmdb.Wal.{Codec}
use d_lmdb.Config.{LmdbFileSection}
use d_lmdb.Db.Types.{Error}
use d_lmdb.Db.Read
use d_lmdb.Host.{Host}
use d_lmdb.Open.{open_from_file}
use d_lmdb.Open.Cluster.{Cluster, wait_ready}
use d_lmdb.Programs.{
  Node, get_step, confirmed_step, scanning, Outcome, done, running, Prog, ◌>>=◌, attempted, logged,
}
use d_lmdb.Programs.Counter.{increment}
use d_lmdb.Programs.Shared.{
  user_1, views_key, renaming, hold, closing, putting, putting_ttl, batching,
}

-- the environment's `CONFIG`, or the file of the first node
abbrev pub config_of : Option Bytes → Bytes
config_of (some path) = path
config_of none = ascii "examples/three-node/config/n1.toml"

-- an error is logged and ends the loop as a swap does
abbrev pub left_by : {W : Type 0} → W → Option (W × Result Bytes Error) → W × Outcome (Unit {0})
left_by w none = (w, running)
left_by w (some (w', r)) = (w', done tt)

module _ {W : Type 0} {L : Lmdb} (n : Node W L) where
  -- `others` is what the other nodes' clients do in each of the rounds, which `fuel` bounds
  unfoldable pub racing : (ℕ → W → W) → ℕ → Prog W (Unit {0})
  racing others fuel w =
      left_by w (increment n views_key (confirmed_step n views_key) others fuel w)

  -- what is done between the opening and Ctrl+C
  unfoldable pub serving : (ℕ → W → W) → ℕ → Prog W (Unit {0})
  serving others fuel = do
    p1 ← logged (putting n user_1 (ascii "alice"))
    alice ← attempted (get_step n user_1)
    renamed ← logged (batching n renaming)
    reset ← logged (putting n views_key (ascii "0"))
    raced ← racing others fuel
    views ← logged (confirmed_step n views_key)
    session ← logged (putting_ttl n (ascii "session:tok_xyz") user_1 30)
    lock ← logged (putting_ttl n (ascii "lock:report:7") (ascii "node:1") 10)
    users ← attempted (scanning n (λ d now. Read.scan_prefix d (ascii "user:") none (some 100) now))
    (λ w. (w, done tt))

module _ {W : Type 0} {L : Lmdb} (host : Host W L) (C : Codec) (cluster : Cluster host)
    (n : Node W L) where
  -- `waiting` is what happens until Ctrl+C
  unfoldable pub three_node :
      (Bytes → Result LmdbFileSection Bytes)
      → Option Bytes
      → (W → W)
      → (ℕ → W → W)
      → ℕ
      → Prog W (Unit {0})
  three_node parse config waiting others fuel = do
    o ← attempted (open_from_file host C parse (some (config_of config)))
    held ← hold host C n o
    ready ← attempted (wait_ready host C cluster o 10)
    served ← serving n others fuel
    (λ w. attempted (closing host C n o) (waiting w))
