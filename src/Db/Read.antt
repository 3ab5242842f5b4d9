-- ===== src/Db/Read.antt =====
-- The reads of d-lmdb/src/db.rs. The clock reading of a call is an argument, and so is what the
-- engine's client returned for the linearizable and the lease reads.
pub mod Reap
pub mod Race
pub mod Multi
pub mod Confirmed
use d_lmdb.Base.{
  ℕ, ◌==◌, Bool, true, false, Option, some, none, List, [], ◌∷◌, Result, ok, err, map_err, map_ok,
  if◌then◌else◌,
}
use d_lmdb.Bytes.{Bytes}
use d_lmdb.Lmdb.{Lmdb}
use d_lmdb.Machine.Types.{LmdbStateMachine, ScanResult, EngineError}
use d_lmdb.Machine.Apply.{delete_local}
use d_lmdb.Machine.Scan
use d_lmdb.Db.Types.{Error, engine, client, ClientApiError}
use d_lmdb.Db.Decode.{DecodedValue, present, expired, decode_live_value, decode_for_scan}

-- The handle's own data. The engine it holds enters through its client, in `Write`.
pub record DLmdb (L : Lmdb) : Type 0 where
  pub state_machine : LmdbStateMachine L
  pub max_key_bytes : ℕ
  pub max_value_bytes : ℕ

module _ {L : Lmdb} where
  abbrev pub reaped :
      DLmdb L
      → LmdbStateMachine L × Result (Unit {0}) EngineError
      → DLmdb L × Result (Option Bytes) Error
  reaped d (m, ok u) = (record d { state_machine = m }, ok none)
  reaped d (m, err e) = (record d { state_machine = m }, err (engine e))

  -- the `match` on the decoded value
  abbrev pub reap :
      DLmdb L → Bytes → Result DecodedValue Error → DLmdb L × Result (Option Bytes) Error
  reap d key (ok (present payload)) = (d, ok (some payload))
  reap d key (ok expired) = reaped d (delete_local d.state_machine key)
  reap d key (err e) = (d, err e)

  unfoldable pub decode_and_reap :
      DLmdb L → Bytes → Option Bytes → ℕ → DLmdb L × Result (Option Bytes) Error
  decode_and_reap d key none now = (d, ok none)
  decode_and_reap d key (some raw) now = reap d key (decode_live_value raw now)

  unfoldable pub fetch_local : DLmdb L → Bytes → ℕ → DLmdb L × Result (Option Bytes) Error
  fetch_local d key now = elim (Scan.get d.state_machine key) [
    | ok raw ↦ decode_and_reap d key raw now
    | err e ↦ (d, err (engine e))
  ]

  unfoldable pub get : DLmdb L → Bytes → ℕ → DLmdb L × Result (Option Bytes) Error
  unfolding fetch_local
  get d key now = fetch_local d key now

  unfoldable pub exists : DLmdb L → Bytes → ℕ → DLmdb L × Result Bool Error
  exists d key now =
      let (d', r) = fetch_local d key now in
      (d', map_ok (λ o. elim o [ some v ↦ true | none ↦ false ]) r)

  -- `collect` into a `Result`: the first error ends it. Each key stands with the clock at its read.
  unfoldable pub get_multi :
      DLmdb L → List (Bytes × ℕ) → DLmdb L × Result (List (Option Bytes)) Error
  get_multi d [] = (d, ok [])
  get_multi d ((key, now) ∷ keys) =
      let (d', r) = fetch_local d key now in
      elim r [
        | err e ↦ (d', err e)
        | ok v ↦ let (d'', rest) = get_multi d' keys in (d'', map_ok (λ vs. v ∷ vs) rest)
      ]

  -- `get_linearizable` and `get_lease`: the engine's answer, then `decode_and_reap`
  unfoldable pub get_confirmed :
      DLmdb L
      → Bytes
      → Result (Option Bytes) ClientApiError
      → ℕ
      → DLmdb L × Result (Option Bytes) Error
  get_confirmed d key (ok raw) now = decode_and_reap d key raw now
  get_confirmed d key (err e) now = (d, err (client e))

  unfoldable pub len : DLmdb L → ℕ
  len d = Scan.len d.state_machine

  unfoldable pub is_empty : DLmdb L → Bool
  unfolding len
  is_empty d = len d == 0

  unfoldable pub scan_all : DLmdb L → Option ℕ → ℕ → Result ScanResult Error
  scan_all d limit now =
      map_err engine (Scan.scan_all d.state_machine limit (some (decode_for_scan now)))

  unfoldable pub scan_prefix :
      DLmdb L → Bytes → Option Bytes → Option ℕ → ℕ → Result ScanResult Error
  scan_prefix d prefix after limit now =
      map_err engine
        (Scan.scan_prefix_bounded d.state_machine prefix after limit (some (decode_for_scan now)))

  unfoldable pub scan_range : DLmdb L → Bytes → Bytes → Option ℕ → ℕ → Result ScanResult Error
  scan_range d start end limit now =
      map_err engine
        (Scan.scan_range d.state_machine start (some end) limit (some (decode_for_scan now)))

  unfoldable pub scan_range_rev : DLmdb L → Bytes → Bytes → Option ℕ → ℕ → Result ScanResult Error
  scan_range_rev d start end limit now =
      map_err engine
        (Scan.scan_range_rev d.state_machine start end limit (some (decode_for_scan now)))
