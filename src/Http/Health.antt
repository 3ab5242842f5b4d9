-- ===== src/Http/Health.antt =====
-- The health endpoints of d-lmdb-server/src/http/health.rs, and the router that d-lmdb-server/src/http/mod.rs
-- makes of them and of the key-value routes.
pub mod Answers
use d_lmdb.Base.{ℕ, Bool, Option, List, [], ◌∷◌, Result, ok, if◌then◌else◌}
use d_lmdb.Bytes.{Bytes}
use d_lmdb.Lmdb.{Lmdb}
use d_lmdb.Wal.{Codec}
use d_lmdb.Host.{Host}
use d_lmdb.Open.{Opened}
use d_lmdb.Open.Cluster.{Cluster, MembershipSnapshot, is_leader, leader, cluster_info}
use d_lmdb.Http.Error.{service_unavailable}
use d_lmdb.Http.Response.{Response, content_type, application_json}
use d_lmdb.Http.Server.{KvRequest}

pub record StatusResponse (LeaderInfo : Type 0) : Type 0 where
  pub leader : Option LeaderInfo
  pub members : List ℕ
  pub learners : List ℕ
  pub committed_index : ℕ

-- The route that a request's path and method are matched with; `axum` answers the others.
pub data Target : Type 0 where
  kv : KvRequest → Target
  primary replica status : Target

-- a status code alone, as a response
abbrev pub status_only : ℕ → Response
status_only code = record { status = code; headers = []; body = ok [] }

module _ {W : Type 0} {L : Lmdb} (host : Host W L) (C : Codec) (cluster : Cluster host) where
  unfoldable pub primary_handler : Opened host C → W → ℕ
  primary_handler db w = if is_leader host C cluster db w then 200 else service_unavailable

  unfoldable pub replica_handler : Opened host C → W → ℕ
  replica_handler db w = if is_leader host C cluster db w then service_unavailable else 200

  unfoldable pub status_handler : Opened host C → W → StatusResponse cluster.LeaderInfo
  status_handler db w =
      let membership : MembershipSnapshot = cluster_info host C cluster db w in
      record {
        leader = leader host C cluster db w;
        members = membership.members;
        learners = membership.learners;
        committed_index = membership.committed_index;
      }

  -- `Json(..)`, by `serde_json` as `to_json`
  abbrev pub status_json :
      (StatusResponse cluster.LeaderInfo → Bytes) → StatusResponse cluster.LeaderInfo → Response
  status_json to_json response = record {
    status = 200;
    headers = (content_type, application_json) ∷ [];
    body = ok (to_json response);
  }

  -- the routes on the handle `db`, where `kv_routes` are those of keys
  unfoldable pub routes :
      (StatusResponse cluster.LeaderInfo → Bytes)
      → Opened host C
      → (KvRequest → W → W × Response)
      → Target
      → W
      → W × Response
  routes to_json db kv_routes (kv req) w = kv_routes req w
  routes to_json db kv_routes primary w = (w, status_only (primary_handler db w))
  routes to_json db kv_routes replica w = (w, status_only (replica_handler db w))
  routes to_json db kv_routes status w = (w, status_json to_json (status_handler db w))
