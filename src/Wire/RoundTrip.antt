-- ===== src/Wire/RoundTrip.antt =====
-- `decode` and the encoders of d-lmdb/src/wire/values.rs, one after the other.
use d_lmdb.Base.{
  ℕ, ◌<◌, ◌≤◌, subst, ◌^◌, ◌≡◌, refl, some, ok, [], ◌∷◌, ◌++◌, arith, length, length-append, take,
  drop, take-append, length-take, drop-append, take-append-drop,
}
use d_lmdb.Bytes.{Bytes, IsBytes}
use d_lmdb.Bytes.Word.{to_be, from_be, length-to_be, from_be-to_be, to_be-from_be, IsBytes-take}
use d_lmdb.Wire.{Value, raw, ttl, encode_raw, encode_ttl, decode}

-- A raw value decodes to its payload, whatever the payload.
pub decode-encode_raw : (p : Bytes) → decode (encode_raw p) ≡ ok (raw p)
unfolding decode encode_raw
decode-encode_raw p = refl

take_header : (ts : ℕ) (p : Bytes) → take 8 (to_be 8 ts ++ p) ≡ to_be 8 ts
take_header ts p =
    subst (λ n. take n (to_be 8 ts ++ p) ≡ to_be 8 ts) (length-to_be 8 ts)
      (take-append (to_be 8 ts) p)

drop_header : (ts : ℕ) (p : Bytes) → drop 8 (to_be 8 ts ++ p) ≡ p
drop_header ts p =
    subst (λ n. drop n (to_be 8 ts ++ p) ≡ p) (length-to_be 8 ts) (drop-append (to_be 8 ts) p)

-- A value with an expiry in 64 bits decodes to that expiry and its payload.
pub decode-encode_ttl :
    (p : Bytes) (ts : ℕ) → ts < 2 ^ 64 → decode (encode_ttl p (some ts)) ≡ ok (ttl ts p)
unfolding decode encode_ttl
decode-encode_ttl p ts h = ground (
  arith,
  take_header ts p,
  drop_header ts p,
  length-append (to_be 8 ts) p,
  length-to_be 8 ts,
  from_be-to_be 8 ts h,
)

-- the encoder for a decoded value
abbrev pub encode : Value → Bytes
encode (raw p) = encode_raw p
encode (ttl ts p) = encode_ttl p (some ts)

header_exact :
    (rest : Bytes)
    → IsBytes rest
    → 8 ≤ length rest
    → to_be 8 (from_be (take 8 rest)) ++ drop 8 rest ≡ rest
header_exact rest w h =
    let eight : length (take 8 rest) ≡ 8 = omega (arith, length-take 8 rest) in
    rw
      (subst (λ n. to_be n (from_be (take 8 rest)) ≡ take 8 rest) eight
        (to_be-from_be (take 8 rest) (IsBytes-take 8 rest w)))
      (take-append-drop 8 rest)

-- A string of bytes that decodes is what the encoders write for the value it decodes to, byte
-- for byte.
pub decode-IsCanonical : (b : Bytes) {v : Value} → IsBytes b → decode b ≡ ok v → encode v ≡ b
unfolding decode encode_raw encode_ttl
decode-IsCanonical [] w h = cc
decode-IsCanonical (t ∷ rest) {v = raw p} w h = ground arith
decode-IsCanonical (t ∷ rest) {v = ttl ts p} w h = ground (arith, header_exact rest w.1)
