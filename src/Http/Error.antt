-- ===== src/Http/Error.antt =====
-- The errors of d-lmdb-server/src/http/error.rs: which status, body and header an error of the
-- database becomes.
pub mod Mapping
pub mod RetryAfter
pub mod Address
use d_lmdb.Base.{
  ℕ, zero, suc, ◌+◌, ◌*◌, ◌/◌, Option, some, none, List, ◌++◌, ◌∷◌, [], if◌then◌else◌,
}
use mathlib.Core.Option
use d_lmdb.Bytes.{Bytes, ascii}
use d_lmdb.Text.{decimal, rsplit_once}
use d_lmdb.Machine.Types.{EngineError}
use d_lmdb.Db.Types.{
  ErrorCode, invalid_request, not_leader, cluster_unavailable, propose_failed, retry_required,
  term_outdated, uncategorized, LeaderHint, ClientApiError, business, network, Error, engine,
  client, lmdb, io, key_too_large, value_too_large, storage, path, config_error, display,
}

pub record LeaderHintDto : Type 0 where
  pub leader_id : ℕ
  pub address : Bytes

pub record ErrorBody : Type 0 where
  pub error : Bytes
  pub leader_hint : Option LeaderHintDto
  pub trace_id : Option Bytes

pub record HttpError : Type 0 where
  pub status : ℕ
  pub body : ErrorBody
  pub retry_after_secs : Option ℕ

-- `StatusCode`
abbrev pub bad_request : ℕ
bad_request = 400

abbrev pub not_found_status : ℕ
not_found_status = 404

abbrev pub internal_server_error : ℕ
internal_server_error = 500

abbrev pub service_unavailable : ℕ
service_unavailable = 503

-- `OnceLock::set`: the first port stays
unfoldable pub set_local_http_port : Option ℕ → ℕ → Option ℕ
set_local_http_port none port = some port
set_local_http_port (some old) port = some old

-- what stands before the last colon, or all of it
abbrev pub host_of : Bytes → Option (Bytes × Bytes) → Bytes
host_of address (some (host, rest)) = host
host_of address none = address

unfoldable pub replace_port : Bytes → ℕ → Bytes
replace_port address port = host_of address (rsplit_once b':' address) ++ (b':' ∷ decimal port)

unfoldable pub rewrite_to_http_address : Option ℕ → Bytes → Bytes
unfolding replace_port
rewrite_to_http_address (some port) raft_address = replace_port raft_address port
rewrite_to_http_address none raft_address = raft_address

abbrev pub plain : ℕ → Bytes → HttpError
plain status message = record {
  status = status;
  body = record { error = message; leader_hint = none; trace_id = none };
  retry_after_secs = none;
}

unfoldable pub not_found : HttpError
not_found = plain not_found_status (ascii "key not found")

unfoldable pub internal_error_category : Error → Bytes
internal_error_category (lmdb e) = ascii "storage error"
internal_error_category (storage e) = ascii "storage error"
internal_error_category (io e) = ascii "storage error"
internal_error_category (engine e) = ascii "cluster error"
internal_error_category (client (business uncategorized message)) = ascii "cluster error"
internal_error_category (config_error e) = ascii "configuration error"
internal_error_category (path e) = ascii "configuration error"
internal_error_category _ = ascii "internal error"

-- `div_ceil(1000)`
unfoldable pub retry_after_ms_to_secs : Option ℕ → Option ℕ
retry_after_ms_to_secs none = none
retry_after_ms_to_secs (some zero) = none
retry_after_ms_to_secs (some (suc ms)) = some ((suc ms + 999) / 1000)

-- The node's own port, the texts of the errors of `d_engine`, and the fresh identifier.
module _ (local_port : Option ℕ) (engine_text : EngineError → Bytes)
    (client_text : ClientApiError → Bytes) where
  abbrev pub hint_dto : LeaderHint → LeaderHintDto
  hint_dto h = record {
    leader_id = h.leader_id;
    address = rewrite_to_http_address local_port h.address;
  }

  -- the wildcard arm
  unfoldable pub unhandled : Bytes → Error → HttpError
  unhandled trace_id e = record {
    status = internal_server_error;
    body = record {
      error = internal_error_category e;
      leader_hint = none;
      trace_id = some trace_id;
    };
    retry_after_secs = none;
  }

  -- `From<d_lmdb::Error>`
  unfoldable pub from_error : Bytes → Error → HttpError
  unfolding unhandled
  from_error trace_id (key_too_large n) =
      plain bad_request (display engine_text client_text (key_too_large n))
  from_error trace_id (value_too_large n) =
      plain bad_request (display engine_text client_text (value_too_large n))
  from_error trace_id (client (business invalid_request message)) = plain bad_request message
  from_error trace_id (client (network not_leader message retry_after_ms leader_hint)) = record {
    status = service_unavailable;
    body = record {
      error = message;
      leader_hint = Option.map hint_dto leader_hint;
      trace_id = none;
    };
    retry_after_secs = retry_after_ms_to_secs retry_after_ms;
  }
  from_error trace_id (client (business cluster_unavailable message)) =
      plain service_unavailable message
  from_error trace_id (client (business propose_failed message)) = plain service_unavailable message
  from_error trace_id (client (business retry_required message)) = plain service_unavailable message
  from_error trace_id (client (business term_outdated message)) = plain service_unavailable message
  from_error trace_id e = unhandled trace_id e
