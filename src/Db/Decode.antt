-- ===== src/Db/Decode.antt =====
-- The pure part of d-lmdb/src/db.rs: what a stored value means at a time, and the size guards.
pub mod Expiry
use d_lmdb.Base.{
  ℕ, Option, some, none, Result, ok, err, ltb, leb, length, if◌then◌else◌, List, arith,
}
use d_lmdb.Bytes.{Bytes, ascii}
use d_lmdb.Wire.{Value, raw, ttl, decode}
use d_lmdb.Db.Types.{Error, storage, key_too_large, value_too_large}

pub data DecodedValue : Type 0 where
  present : Bytes → DecodedValue
  expired : DecodedValue

-- the `match Value::decode(raw)`, by its arms
abbrev pub live_of : Result Value (Unit {0}) → ℕ → Result DecodedValue Error
live_of (ok (raw payload)) now = ok (present payload)
live_of (ok (ttl expires_at payload)) now =
    if leb expires_at now then ok expired else ok (present payload)
live_of (err _) now = err (storage (ascii "corrupt value: invalid tag byte"))

unfoldable pub decode_live_value : Bytes → ℕ → Result DecodedValue Error
decode_live_value bytes now = live_of (decode bytes) now

abbrev pub scan_of : Result Value (Unit {0}) → ℕ → Option Bytes
scan_of (ok (raw payload)) now = some payload
scan_of (ok (ttl expires_at payload)) now = if ltb now expires_at then some payload else none
scan_of (err _) now = none

-- the clock is an argument: a scan reads it for each entry, here at one second for all
unfoldable pub decode_for_scan : ℕ → Bytes → Option Bytes
decode_for_scan now bytes = scan_of (decode bytes) now

unfoldable pub validate_key : Bytes → ℕ → Result (Unit {0}) Error
validate_key key max = if ltb max (length key) then err (key_too_large (length key)) else ok tt

unfoldable pub validate_value : Bytes → ℕ → Result (Unit {0}) Error
validate_value value max =
    if ltb max (length value) then err (value_too_large (length value)) else ok tt
