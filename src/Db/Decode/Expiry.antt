-- ===== src/Db/Decode/Expiry.antt =====
-- The expiry of stored values, in point reads and in scans of d-lmdb/src/db.rs.
use d_lmdb.Base.{
  ℕ, ◌≤◌, ◌<◌, ◌^◌, ◌≡◌, refl, Option, some, none, Result, ok, err, ltb, if◌then◌else◌, arith,
}
use d_lmdb.Bytes.{Bytes}
use d_lmdb.Wire.{Value, raw, ttl, encode_raw, encode_ttl, decode}
use d_lmdb.Wire.RoundTrip.{decode-encode_raw, decode-encode_ttl}
use d_lmdb.Db.Types.{Error}
use d_lmdb.Db.Decode.{
  DecodedValue, present, expired, live_of, decode_live_value, scan_of, decode_for_scan,
}

-- a point read, with an expired value and a corrupt one both taken for none
abbrev pub shown : Result DecodedValue Error → Option Bytes
shown (ok (present p)) = some p
shown (ok expired) = none
shown (err e) = none

shown-live_of : (r : Result Value (Unit {0})) (now : ℕ) → scan_of r now ≡ shown (live_of r now)
shown-live_of (ok (raw p)) now = refl
shown-live_of (ok (ttl e p)) now = ground arith
shown-live_of (err u) now = refl

-- A scan shows for a stored value what a point read at the same time does, but that it drops a
-- corrupt value where the read fails.
pub decode_for_scan-eq-shown :
    (now : ℕ) (b : Bytes) → decode_for_scan now b ≡ shown (decode_live_value b now)
unfolding decode_for_scan decode_live_value
decode_for_scan-eq-shown now b = shown-live_of (decode b) now

-- A value without expiry is present with its payload at any time.
pub live-encode_raw : (p : Bytes) (now : ℕ) → decode_live_value (encode_raw p) now ≡ ok (present p)
unfolding decode_live_value
live-encode_raw p now = rw decode-encode_raw

-- A value with an expiry below 2 ^ 64 is present with its payload before that time, and expired
-- from then on.
pub live-encode_ttl :
    (p : Bytes) (ts now : ℕ)
    → ts < 2 ^ 64
    → decode_live_value (encode_ttl p (some ts)) now
      ≡ (if ltb now ts then ok (present p) else ok expired)
unfolding decode_live_value
live-encode_ttl p ts now h = rw (decode-encode_ttl p ts h) (ground arith)

live_of_mono :
    (r : Result Value (Unit {0})) (now later : ℕ)
    → now ≤ later
    → live_of r now ≡ ok expired
    → live_of r later ≡ ok expired
live_of_mono (ok (raw p)) now later h e = cc
live_of_mono (ok (ttl x p)) now later h e = ground arith
live_of_mono (err u) now later h e = cc

-- A stored value that has expired at a time stays expired at every later time.
pub expired_mono :
    (b : Bytes) (now later : ℕ)
    → now ≤ later
    → decode_live_value b now ≡ ok expired
    → decode_live_value b later ≡ ok expired
unfolding decode_live_value
expired_mono b now later h e = live_of_mono (decode b) now later h e
