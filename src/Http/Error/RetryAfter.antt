-- ===== src/Http/Error/RetryAfter.antt =====
-- The `Retry-After` header of d-lmdb-server/src/http/error.rs.
use d_lmdb.Base.{ℕ, zero, suc, ◌+◌, ◌*◌, ◌/◌, ◌^◌, ◌<◌, ◌≤◌, ◌≡◌, Option, some, All, arith}
use d_lmdb.Bytes.{Bytes}
use d_lmdb.Text.{decimal, value_from}
use d_lmdb.Text.Decimal.{IsDigit, decimal-IsDigit, value_from-decimal}
use d_lmdb.Store.{lookup}
use d_lmdb.Store.Lookup.{lookup-insert_self}
use d_lmdb.Machine.Types.{EngineError}
use d_lmdb.Db.Types.{not_leader, LeaderHint, ClientApiError, network, client}
use d_lmdb.Http.Error.{retry_after_ms_to_secs, from_error}
use d_lmdb.Http.Response.{Axum, retry_after, into_response}

-- Digits make a header's value.
abbrev pub TakesDigits : Axum → Type 0
TakesDigits axum = (b : Bytes) → All IsDigit b → axum.header_value b ≡ some b

module _ (axum : Axum) (takes_digits : TakesDigits axum) where
  -- Where digits make a header's value, and the engine gives a time of `ms` milliseconds to
  -- wait, not 0 and in 64 bits, the response to a `NotLeader` error has a `Retry-After` header
  -- whose decimal value is the least number of whole seconds that is at least that long, and
  -- never 0.
  pub retry_after_seconds :
      (local_port : Option ℕ) (engine_text : EngineError → Bytes)
      (client_text : ClientApiError → Bytes) (trace_id message : Bytes) (ms : ℕ)
      (hint : Option LeaderHint)
      → 0 < ms
      → ms < 2 ^ 64
      → let e = client (network not_leader message (some ms) hint) in
        let r = into_response axum (from_error local_port engine_text client_text trace_id e) in
        (b : Bytes) × (lookup retry_after r.headers ≡ some b)
        × (ms ≤ 1000 * value_from 0 b)
        × (1000 * value_from 0 b < ms + 1000)
  unfolding from_error into_response retry_after_ms_to_secs
  retry_after_seconds local_port engine_text client_text trace_id message zero hint h k = elim h [ ]
  retry_after_seconds local_port engine_text client_text trace_id message (suc n) hint h k =
      let s : ℕ = (suc n + 999) / 1000 in
      let value = value_from-decimal s (omega arith) in
      (
        decimal s,
        rw (takes_digits (decimal s) (decimal-IsDigit s))
            (lookup-insert_self retry_after (decimal s) _),
        rw value (omega arith),
        rw value (omega arith),
      )
