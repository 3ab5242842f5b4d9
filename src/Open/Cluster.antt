-- ===== src/Open/Cluster.antt =====
-- The methods of `DLmdb` in d-lmdb/src/db.rs that ask the engine about the cluster: `wait_ready`,
-- `leader`, `is_leader`, `cluster_info`, and `max_value_bytes`.
use d_lmdb.Base.{ℕ, Bool, Option, List, Result}
use d_lmdb.Lmdb.{Lmdb}
use d_lmdb.Machine.Types.{EngineError}
use d_lmdb.Wal.{Codec}
use d_lmdb.Db.Types.{engine}
use d_lmdb.Host.{Host, Step, converted}
use d_lmdb.Open.{Opened}

pub record MembershipSnapshot : Type 0 where
  pub members : List ℕ
  pub learners : List ℕ
  pub committed_index : ℕ

-- What the engine offers of the cluster. A time to wait is in seconds.
pub record Cluster {W : Type 0} {L : Lmdb} (host : Host W L) : Type 1 where
  pub LeaderInfo : Type 0
  pub leader_id : LeaderInfo → ℕ
  pub wait_ready : host.Engine → ℕ → W → W × Result (Unit {0}) EngineError
  pub leader_info : host.Engine → W → Option LeaderInfo
  pub is_leader : host.Engine → W → Bool
  pub membership : host.Engine → W → MembershipSnapshot

module _ {W : Type 0} {L : Lmdb} (host : Host W L) (C : Codec) (cluster : Cluster host) where
  unfoldable pub wait_ready : Opened host C → ℕ → Step W (Unit {0})
  wait_ready o timeout = converted engine (cluster.wait_ready o.inner timeout)

  unfoldable pub leader : Opened host C → W → Option cluster.LeaderInfo
  leader o w = cluster.leader_info o.inner w

  unfoldable pub is_leader : Opened host C → W → Bool
  is_leader o w = cluster.is_leader o.inner w

  unfoldable pub cluster_info : Opened host C → W → MembershipSnapshot
  cluster_info o w = cluster.membership o.inner w

  unfoldable pub max_value_bytes : Opened host C → ℕ
  max_value_bytes o = o.db.max_value_bytes
