-- ===== src/Http/Server.antt =====
-- The layers of d-lmdb-server/src/http/mod.rs over the routes of kv.rs.
pub mod Reject
use d_lmdb.Base.{ℕ, ◌+◌, Bool, Option, Result, ok, err}
use d_lmdb.Bytes.{Bytes}
use d_lmdb.Lmdb.{Lmdb}
use d_lmdb.Db.Types.{ClientApiError}
use d_lmdb.Db.Read.{DLmdb}
use d_lmdb.Db.Write.{Request}
use d_lmdb.Http.Response.{Axum, Response, normalize_error_body}
use d_lmdb.Http.Kv.{
  ConsistencyLevel, valid_key, text_response, Context, get_handler, put_handler, delete_handler,
}

abbrev pub body_limit_overhead_bytes : ℕ
body_limit_overhead_bytes = 1024

-- `body_limit` of `serve`
unfoldable pub body_limit : {L : Lmdb} → DLmdb L → ℕ
body_limit d = d.max_value_bytes + body_limit_overhead_bytes

pub data Method : Type 0 where
  get put delete : Method

-- A request to `/kv/{key}`, with what the extractors make of its path, query and body; a rejection
-- is the response that it answers with.
pub record KvRequest : Type 0 where
  pub method : Method
  pub key : Result Bytes (Unit {0})
  pub level : Result ConsistencyLevel Response
  pub body : Result Bytes Response

-- `node` is this node's handle within the world, and `keep` puts it back after a read, which may
-- reap.
module _ {W : Type 0} {L : Lmdb} (c : Context)
    (submit : Request → W → W × Result Bool ClientApiError) (node : W → DLmdb L)
    (keep : DLmdb L → W → W)
    (confirm : ConsistencyLevel → Bytes → W → Result (Option Bytes) ClientApiError) (now : ℕ) where
  -- `ValidKey` is the first extractor of each handler
  abbrev pub with_key : Result Bytes (Unit {0}) → (Bytes → W × Response) → W → W × Response
  with_key path run w = elim (valid_key path) [
    | err rejection ↦ (w, text_response rejection)
    | ok key ↦ run key
  ]

  abbrev pub get_with : Result ConsistencyLevel Response → W → Bytes → W × Response
  get_with (err rejection) w key = (w, rejection)
  get_with (ok level) w key =
      let (d', response) = get_handler c (node w) key level (λ l. confirm l key w) now in
      (keep d' w, response)

  abbrev pub put_with : Result Bytes Response → W → Bytes → W × Response
  put_with (err rejection) w key = (w, rejection)
  put_with (ok body) w key = put_handler c submit (node w) key body w

  -- `get(get_handler).put(put_handler).delete(delete_handler)`; `axum` answers the other methods
  abbrev pub by_method : Method → KvRequest → W → W × Response
  by_method get req w = with_key req.key (get_with req.level w) w
  by_method put req w = with_key req.key (put_with req.body w) w
  by_method delete req w = with_key req.key (λ key. delete_handler c submit (node w) key w) w

  unfoldable pub route : KvRequest → W → W × Response
  route req w = by_method req.method req w

-- The layers round a router: the body limit of `tower_http`, given as a function, and outside it the
-- middleware that normalises error bodies.
unfoldable pub app :
    {W R : Type 0} {L : Lmdb}
    → Axum
    → (ℕ → (R → W → W × Response) → R → W → W × Response)
    → DLmdb L
    → (R → W → W × Response)
    → R
    → W
    → W × Response
app axum limit_layer db router req w =
    let (w', response) = limit_layer (body_limit db) router req w in
    (w', normalize_error_body axum response)
