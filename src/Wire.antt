-- ===== src/Wire.antt =====
-- d-lmdb/src/wire/values.rs: the envelope in which every value is stored, a tag byte, and for a
-- value with an expiry its time as eight big-endian bytes, before the payload.
pub mod RoundTrip
use d_lmdb.Base.{
  ℕ, Option, some, none, Result, ok, err, [], ◌∷◌, ◌++◌, ◌==◌, ltb, length, take, drop,
  if◌then◌else◌,
}
use d_lmdb.Bytes.{Bytes}
use d_lmdb.Bytes.Word.{to_be, from_be}

abbrev pub tag_raw : ℕ
tag_raw = 0x00

abbrev pub tag_ttl : ℕ
tag_ttl = 0x01

abbrev pub ttl_header_len : ℕ
ttl_header_len = 9

pub data Value : Type 0 where
  raw : Bytes → Value
  ttl : ℕ → Bytes → Value

unfoldable pub encode_raw : Bytes → Bytes
encode_raw payload = tag_raw ∷ payload

unfoldable pub encode_ttl : Bytes → Option ℕ → Bytes
unfolding encode_raw
encode_ttl payload none = encode_raw payload
encode_ttl payload (some ts) = tag_ttl ∷ (to_be 8 ts ++ payload)

-- `bytes[1..9]` and `bytes[9..]` are taken from what follows the tag
unfoldable pub decode : Bytes → Result Value (Unit {0})
decode [] = err tt
decode (tag ∷ rest) =
    if tag == tag_raw
    then ok (raw rest)
    else if tag == tag_ttl
    then (if ltb (length (tag ∷ rest)) ttl_header_len
        then err tt
        else ok (ttl (from_be (take 8 rest)) (drop 8 rest)))
    else err tt
