-- ===== src/Http/Health/Answers.antt =====
-- What a load balancer learns from the health endpoints of d-lmdb-server/src/http/health.rs.
use d_lmdb.Base.{ℕ, ◌≡◌, refl, sym, ap, subst, Bool, true, false, not, if◌then◌else◌, [], ◌∷◌, ok}
use d_lmdb.Bytes.{Bytes, ascii}
use d_lmdb.Store.{lookup}
use d_lmdb.Lmdb.{Lmdb}
use d_lmdb.Wal.{Codec}
use d_lmdb.Host.{Host}
use d_lmdb.Open.{Opened}
use d_lmdb.Open.Cluster.{Cluster, is_leader, leader, cluster_info}
use d_lmdb.Http.Response.{Axum, Response, normalize_error_body}
use d_lmdb.Http.Response.Normalize.{ReadsAscii, json_error, normalize_text}
use d_lmdb.Http.Error.{service_unavailable}
use d_lmdb.Http.Server.{KvRequest, body_limit, app}
use d_lmdb.Http.Health.{
  StatusResponse, Target, primary, replica, status, status_only, primary_handler, replica_handler,
  status_handler, routes,
}

module _ (axum : Axum) where
  -- 200 without a body, or 503 with a JSON body of an empty message
  abbrev pub Answers : Bool → Response → Type 0
  Answers true r = r ≡ record { status = 200; headers = []; body = ok [] }
  Answers false r = r ≡ json_error axum 503 []

  normalized-Answers :
      (b : Bool)
      → ReadsAscii axum
      → Answers b (normalize_error_body axum (status_only (if b then 200 else service_unavailable)))
  unfolding normalize_error_body lookup
  normalized-Answers true keeps = refl
  normalized-Answers false keeps =
      normalize_text axum (status_only service_unavailable) [] refl refl refl (keeps [] tt)

  normalized_not-Answers :
      (b : Bool)
      → ReadsAscii axum
      → Answers
          (not b)
          (normalize_error_body axum (status_only (if b then service_unavailable else 200)))
  normalized_not-Answers true keeps = normalized-Answers false keeps
  normalized_not-Answers false keeps = normalized-Answers true keeps

  module _ {W : Type 0} {L : Lmdb} (host : Host W L) (C : Codec) (cluster : Cluster host)
      (to_json : StatusResponse cluster.LeaderInfo → Bytes) (db : Opened host C)
      (kv_routes : KvRequest → W → W × Response)
      (limit_layer : ℕ → (Target → W → W × Response) → Target → W → W × Response) where
    abbrev pub served : Target → W → W × Response
    served = app axum limit_layer db.db (routes host C cluster to_json db kv_routes)

    served-normalized :
        (target : Target) (w : W)
        → limit_layer (body_limit db.db) (routes host C cluster to_json db kv_routes) target w
          ≡ routes host C cluster to_json db kv_routes target w
        → served target w ≡ (
          (routes host C cluster to_json db kv_routes target w).0,
          normalize_error_body axum (routes host C cluster to_json db kv_routes target w).1,
        )
    unfolding app
    served-normalized target w passed =
        ap (λ (p : W × Response). (p.0, normalize_error_body axum p.1)) passed

    -- the limit layer hands a request on, as it does with one that has no body
    abbrev pub Passes : Target → W → Type 0
    Passes target w =
        limit_layer (body_limit db.db) (routes host C cluster to_json db kv_routes) target w
        ≡ routes host C cluster to_json db kv_routes target w

    -- what /status tells, from what the engine tells
    abbrev pub told : W → StatusResponse cluster.LeaderInfo
    told w = record {
      leader = cluster.leader_info db.inner w;
      members = (cluster.membership db.inner w).members;
      learners = (cluster.membership db.inner w).learners;
      committed_index = (cluster.membership db.inner w).committed_index;
    }

    pub health-Answers :
        (w : W)
        → ReadsAscii axum
        → Passes primary w
        → Passes replica w
        → Passes status w
        → ((served primary w).0 ≡ w)
          × Answers (cluster.is_leader db.inner w) (served primary w).1
          × ((served replica w).0 ≡ w)
          × Answers (not (cluster.is_leader db.inner w)) (served replica w).1
          × (served status w ≡ (
            w,
            record {
              status = 200;
              headers = (ascii "content-type", ascii "application/json") ∷ [];
              body = ok (to_json (told w));
            },
          ))
    unfolding routes primary_handler replica_handler status_handler is_leader leader cluster_info
        normalize_error_body
    health-Answers w reads_ascii to_primary to_replica to_status =
        let leads = cluster.is_leader db.inner w in
        let on_primary = served-normalized primary w to_primary in
        let on_replica = served-normalized replica w to_replica in
        (
          ap (λ p. p.0) on_primary,
          subst (λ (p : W × Response). Answers leads p.1) (sym on_primary)
              (normalized-Answers leads reads_ascii),
          ap (λ p. p.0) on_replica,
          subst (λ (p : W × Response). Answers (not leads) p.1) (sym on_replica)
              (normalized_not-Answers leads reads_ascii),
          served-normalized status w to_status,
        )
