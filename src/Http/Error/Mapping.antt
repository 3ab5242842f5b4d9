-- ===== src/Http/Error/Mapping.antt =====
-- `From<d_lmdb::Error>` of d-lmdb-server/src/http/error.rs over all errors.
use d_lmdb.Base.{
  ℕ, zero, suc, ◌*◌, ◌+◌, ◌<◌, ◌≤◌, ◌≡◌, ◌≢◌, ◌++◌, refl, ap, ◌⊎◌, inl, inr, Option, some, none,
  arith,
}
use mathlib.Core.Option
use d_lmdb.Bytes.{Bytes, ascii}
use d_lmdb.Text.{decimal}
use d_lmdb.Machine.Types.{EngineError}
use d_lmdb.Db.Types.{
  ErrorCode, invalid_request, not_leader, cluster_unavailable, propose_failed, retry_required,
  term_outdated, uncategorized, other_code, LeaderHint, ClientApiError, business, network,
  other_client_error, Error, engine, client, lmdb, io, key_too_large, value_too_large, storage,
  path, config_error, display,
}
use d_lmdb.Http.Error.{
  HttpError, internal_error_category, retry_after_ms_to_secs, rewrite_to_http_address, unhandled,
  from_error,
}

-- The errors that a client's request causes, with the text that it is told.
pub data RequestAtFault : Error → Bytes → Type 0 where
  long_key :
      (n : ℕ)
      → RequestAtFault
          (key_too_large n)
          (ascii "key too large: " ++ (decimal n ++ ascii " bytes (max 512)"))
  long_value :
      (n : ℕ)
      → RequestAtFault
          (value_too_large n)
          (ascii "value too large: " ++ (decimal n ++ ascii " bytes (max 1MB)"))
  invalid : (text : Bytes) → RequestAtFault (client (business invalid_request text)) text

-- The errors of a cluster that cannot serve now, with the text, the time to wait in milliseconds and
-- the leader that are known.
pub data ClusterAtFault : Error → Bytes → Option ℕ → Option LeaderHint → Type 0 where
  follower :
      (text : Bytes) (ms : Option ℕ) (hint : Option LeaderHint)
      → ClusterAtFault (client (network not_leader text ms hint)) text ms hint
  unavailable :
      (text : Bytes) → ClusterAtFault (client (business cluster_unavailable text)) text none none
  no_proposal :
      (text : Bytes) → ClusterAtFault (client (business propose_failed text)) text none none
  retry : (text : Bytes) → ClusterAtFault (client (business retry_required text)) text none none
  outdated : (text : Bytes) → ClusterAtFault (client (business term_outdated text)) text none none

-- All other errors, with what is told of them.
pub data NodeAtFault : Error → Bytes → Type 0 where
  of_lmdb : (e : Bytes) → NodeAtFault (lmdb e) (ascii "storage error")
  of_storage : (e : Bytes) → NodeAtFault (storage e) (ascii "storage error")
  of_io : (e : Bytes) → NodeAtFault (io e) (ascii "storage error")
  of_engine : (e : EngineError) → NodeAtFault (engine e) (ascii "cluster error")
  of_cluster :
      (text : Bytes) → NodeAtFault (client (business uncategorized text)) (ascii "cluster error")
  of_config : (e : Bytes) → NodeAtFault (config_error e) (ascii "configuration error")
  of_path : (e : Bytes) → NodeAtFault (path e) (ascii "configuration error")
  of_business :
      (text : Bytes) → NodeAtFault (client (business not_leader text)) (ascii "internal error")
  of_code :
      (n : ℕ) (text : Bytes)
      → NodeAtFault (client (business (other_code n) text)) (ascii "internal error")
  of_network :
      (code : ErrorCode) (text : Bytes) (ms : Option ℕ) (hint : Option LeaderHint)
      → code ≢ not_leader
      → NodeAtFault (client (network code text ms hint)) (ascii "internal error")
  of_client : (e : Bytes) → NodeAtFault (client (other_client_error e)) (ascii "internal error")

-- The seconds to wait: as many as hold the milliseconds, and none for none.
pub data Waits : Option ℕ → Option ℕ → Type 0 where
  unknown : Waits none none
  at_once : Waits (some 0) none
  seconds :
      (ms secs : ℕ)
      → 0 < ms
      → ms ≤ secs * 1000
      → secs * 1000 < ms + 1000
      → Waits (some ms) (some secs)

retry_after_ms_to_secs-Waits : (ms : Option ℕ) → Waits ms (retry_after_ms_to_secs ms)
unfolding retry_after_ms_to_secs
retry_after_ms_to_secs-Waits none = unknown
retry_after_ms_to_secs-Waits (some zero) = at_once
retry_after_ms_to_secs-Waits (some (suc ms)) =
    seconds (suc ms) _ (omega arith) (omega arith) (omega arith)

module _ (local_port : Option ℕ) (engine_text : EngineError → Bytes)
    (client_text : ClientApiError → Bytes) (trace_id : Bytes) where
  abbrev mapped : Error → HttpError
  mapped e = from_error local_port engine_text client_text trace_id e

  -- 400 with a message alone
  abbrev pub Rejects : Error → HttpError → Type 0
  Rejects e h =
      (text : Bytes) × RequestAtFault e text
      × (h ≡ record {
        status = 400;
        body = record { error = text; leader_hint = none; trace_id = none };
        retry_after_secs = none;
      })

  -- 503, with the leader's address as an HTTP client can use it, and a time to wait
  abbrev pub Refers : Error → HttpError → Type 0
  Refers e h =
      (text : Bytes) × (ms : Option ℕ) × (hint : Option LeaderHint) × (secs : Option ℕ)
      × ClusterAtFault e text ms hint
      × Waits ms secs
      × (h ≡ record {
        status = 503;
        body = record {
          error = text;
          leader_hint =
              Option.map
                (λ (l : LeaderHint). record {
                  leader_id = l.leader_id;
                  address = rewrite_to_http_address local_port l.address;
                })
                hint;
          trace_id = none;
        };
        retry_after_secs = secs;
      })

  -- 500 with one of four fixed texts, and the identifier of the log entry
  abbrev pub Hides : Error → HttpError → Type 0
  Hides e h =
      (text : Bytes) × NodeAtFault e text
      × (h ≡ record {
        status = 500;
        body = record { error = text; leader_hint = none; trace_id = some trace_id };
        retry_after_secs = none;
      })

  pub from_error_classified :
      (e : Error) → Rejects e (mapped e) ⊎ Refers e (mapped e) ⊎ Hides e (mapped e)
  unfolding from_error unhandled internal_error_category display
  from_error_classified (key_too_large n) = inl (_, long_key n, refl)
  from_error_classified (value_too_large n) = inl (_, long_value n, refl)
  from_error_classified (client (business invalid_request text)) = inl (_, invalid text, refl)
  from_error_classified (client (network not_leader text ms hint)) =
      inr (inl (_, ms, hint, _, follower text ms hint, retry_after_ms_to_secs-Waits ms, refl))
  from_error_classified (client (business cluster_unavailable text)) =
      inr (inl (_, none, none, _, unavailable text, unknown, refl))
  from_error_classified (client (business propose_failed text)) =
      inr (inl (_, none, none, _, no_proposal text, unknown, refl))
  from_error_classified (client (business retry_required text)) =
      inr (inl (_, none, none, _, retry text, unknown, refl))
  from_error_classified (client (business term_outdated text)) =
      inr (inl (_, none, none, _, outdated text, unknown, refl))
  from_error_classified (lmdb e) = inr (inr (_, of_lmdb e, refl))
  from_error_classified (storage e) = inr (inr (_, of_storage e, refl))
  from_error_classified (io e) = inr (inr (_, of_io e, refl))
  from_error_classified (engine e) = inr (inr (_, of_engine e, refl))
  from_error_classified (config_error e) = inr (inr (_, of_config e, refl))
  from_error_classified (path e) = inr (inr (_, of_path e, refl))
  from_error_classified (client (business uncategorized text)) =
      inr (inr (_, of_cluster text, refl))
  from_error_classified (client (business not_leader text)) = inr (inr (_, of_business text, refl))
  from_error_classified (client (business (other_code n) text)) =
      inr (inr (_, of_code n text, refl))
  from_error_classified (client (other_client_error e)) = inr (inr (_, of_client e, refl))
  from_error_classified (client (network code text ms hint)) =
      inr (inr (_, of_network code text ms hint (λ h. cc), refl))

  pub from_error-status-ne : (e : Error) (n : ℕ) → n < 400 → (mapped e).status ≢ n
  from_error-status-ne e n h same = elim (from_error_classified e) [
    | inl (text, fault, r) ↦
        let status : (mapped e).status ≡ 400 = ap (λ x. x.status) r in omega arith
    | inr (inl (text, ms, hint, secs, fault, waits, r)) ↦
        let status : (mapped e).status ≡ 503 = ap (λ x. x.status) r in omega arith
    | inr (inr (text, fault, r)) ↦
        let status : (mapped e).status ≡ 500 = ap (λ x. x.status) r in omega arith
  ]
