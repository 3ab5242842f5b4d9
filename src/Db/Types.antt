-- ===== src/Db/Types.antt =====
-- The error type of d-lmdb/src/error.rs with its texts, and the errors of the client of `d_engine`
-- that it holds. Texts are byte strings, as Rust's strings are.
use d_lmdb.Base.{ℕ, Option, ◌++◌}
use d_lmdb.Bytes.{Bytes, ascii}
use d_lmdb.Text.{decimal}
use d_lmdb.Machine.Types.{EngineError, fatal}

pub data ErrorCode : Type 0 where
  invalid_request not_leader cluster_unavailable propose_failed retry_required : ErrorCode
  term_outdated uncategorized : ErrorCode
  -- the codes of `d_engine` that the source does not name
  other_code : ℕ → ErrorCode

pub record LeaderHint : Type 0 where
  pub leader_id : ℕ
  pub address : Bytes

-- a business error has further fields, which the source ignores
pub data ClientApiError : Type 0 where
  business : ErrorCode → Bytes → ClientApiError
  network : ErrorCode → Bytes → Option ℕ → Option LeaderHint → ClientApiError
  other_client_error : Bytes → ClientApiError

pub data Error : Type 0 where
  engine : EngineError → Error
  client : ClientApiError → Error
  lmdb io : Bytes → Error
  key_too_large value_too_large : ℕ → Error
  storage path config_error : Bytes → Error

-- `Display`, with the texts of the errors of `d_engine`
unfoldable pub display : (EngineError → Bytes) → (ClientApiError → Bytes) → Error → Bytes
display engine_text client_text (engine e) = ascii "engine: " ++ engine_text e
display engine_text client_text (client e) = ascii "client: " ++ client_text e
display engine_text client_text (lmdb e) = ascii "lmdb: " ++ e
display engine_text client_text (io e) = ascii "io: " ++ e
display engine_text client_text (key_too_large n) =
    ascii "key too large: " ++ (decimal n ++ ascii " bytes (max 512)")
display engine_text client_text (value_too_large n) =
    ascii "value too large: " ++ (decimal n ++ ascii " bytes (max 1MB)")
display engine_text client_text (storage e) = ascii "storage: " ++ e
display engine_text client_text (path e) = ascii "path is not valid UTF-8: " ++ e
display engine_text client_text (config_error e) = ascii "config_error: " ++ e

-- `From<Error> for d_engine::Error`
unfoldable pub to_engine_error :
    (EngineError → Bytes) → (ClientApiError → Bytes) → Error → EngineError
unfolding display
to_engine_error engine_text client_text e = fatal (display engine_text client_text e)
