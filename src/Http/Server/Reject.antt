-- ===== src/Http/Server/Reject.antt =====
-- Requests that the server of d-lmdb-server/src/http/mod.rs refuses before the engine sees them.
use d_lmdb.Base.{
  ℕ, ◌<◌, ◌≤◌, ◌≡◌, ◌≢◌, refl, ap, ◌∙◌, ◌++◌, Bool, true, false, Option, none, [], ◌∷◌, length, All,
  Result, ok, err, arith, ltb,
}
use d_lmdb.Bytes.{Bytes, ascii, starts_with, cmp}
use d_lmdb.Store.{lookup}
use d_lmdb.Text.{decimal}
use d_lmdb.Lmdb.{Lmdb}
use d_lmdb.Db.Types.{ClientApiError, display}
use d_lmdb.Db.Decode.{validate_key, validate_value}
use d_lmdb.Db.Read.{DLmdb}
use d_lmdb.Db.Write.{Request, db_put}
use d_lmdb.Http.Error.{from_error}
use d_lmdb.Http.Response.{Response, application_json, is_json, into_response, normalize_error_body}
use d_lmdb.Http.Response.Normalize.{
  ReadsVisible, ReadsAscii, json_error, json_response-is_json, normalize_json, normalize_text,
}
use d_lmdb.Http.Kv.{
  ConsistencyLevel, contains_slash, valid_key, text_response, Context, put_handler,
}
use d_lmdb.Http.Server.{
  body_limit, Method, get, put, delete, KvRequest, with_key, put_with, by_method, route, app,
}

-- A path that gives no valid key, with the text that it is answered with.
pub data BadKey : Result Bytes (Unit {0}) → Bytes → Type 0 where
  encoding : BadKey (err tt) (ascii "invalid key encoding")
  empty : BadKey (ok []) (ascii "key must not be empty")
  slash :
      (before after : Bytes)
      → BadKey (ok (before ++ (b'/' ∷ after))) (ascii "key must not contain '/'")

abbrev pub HasNoSlash : Bytes → Type 0
HasNoSlash key = All (λ c. c ≢ b'/') key

-- A request that is refused, with the text that it is answered with: its key is not valid, or it is a
-- PUT of a key or a value over the limits of the node.
pub data Refused {L : Lmdb} (d : DLmdb L) (req : KvRequest) : Bytes → Type 0 where
  bad_key : {text : Bytes} → BadKey req.key text → Refused d req text
  long_key :
      (c : ℕ) (s body : Bytes)
      → req.method ≡ put
      → req.key ≡ ok (c ∷ s)
      → HasNoSlash (c ∷ s)
      → req.body ≡ ok body
      → d.max_key_bytes < length (c ∷ s)
      → Refused d req
          (ascii "key too large: " ++ (decimal (length (c ∷ s)) ++ ascii " bytes (max 512)"))
  long_value :
      (c : ℕ) (s body : Bytes)
      → req.method ≡ put
      → req.key ≡ ok (c ∷ s)
      → HasNoSlash (c ∷ s)
      → req.body ≡ ok body
      → length (c ∷ s) ≤ d.max_key_bytes
      → d.max_value_bytes < length body
      → Refused d req
          (ascii "value too large: " ++ (decimal (length body) ++ ascii " bytes (max 1MB)"))

contains_slash-slash : (before after : Bytes) → contains_slash (before ++ (b'/' ∷ after)) ≡ true
contains_slash-slash [] after = refl
contains_slash-slash (c ∷ before) after = ground (arith, contains_slash-slash before after)

contains_slash-none : (key : Bytes) → HasNoSlash key → contains_slash key ≡ false
contains_slash-none [] h = refl
contains_slash-none (c ∷ s) h = ground (arith, h.0, contains_slash-none s h.1)

valid_key-BadKey :
    (path : Result Bytes (Unit {0})) (text : Bytes)
    → BadKey path text
    → valid_key path ≡ err (400, text)
unfolding valid_key
valid_key-BadKey path text encoding = refl
valid_key-BadKey path text empty = refl
valid_key-BadKey path text (slash [] after) = refl
valid_key-BadKey path text (slash (c ∷ before) after) =
    rw (contains_slash-slash (c ∷ before) after) refl

valid_key-ok : (c : ℕ) (s : Bytes) → HasNoSlash (c ∷ s) → valid_key (ok (c ∷ s)) ≡ ok (c ∷ s)
unfolding valid_key
valid_key-ok c s h = rw (contains_slash-none (c ∷ s) h) refl

-- the texts of the two rejections by length, and of those of keys
BadKey-IsAscii :
    (path : Result Bytes (Unit {0})) (text : Bytes) → BadKey path text → All (λ c. c < 128) text
BadKey-IsAscii path text encoding = ground arith
BadKey-IsAscii path text empty = ground arith
BadKey-IsAscii path text (slash before after) = ground arith

module _ {W : Type 0} {L : Lmdb} (submit : Request → W → W × Result Bool ClientApiError)
    (d : DLmdb L) (c : Context) where
  put_handler-long_key :
      (k v : Bytes) (w : W)
      → d.max_key_bytes < length k
      → put_handler c submit d k v w ≡ (
        w,
        json_error c.axum 400
            (ascii "key too large: " ++ (decimal (length k) ++ ascii " bytes (max 512)")),
      )
  unfolding put_handler db_put validate_key into_response from_error display
  put_handler-long_key k v w over =
      let long : ltb d.max_key_bytes (length k) ≡ true = ground arith in rw long refl

  put_handler-long_value :
      (k v : Bytes) (w : W)
      → length k ≤ d.max_key_bytes
      → d.max_value_bytes < length v
      → put_handler c submit d k v w ≡ (
        w,
        json_error c.axum 400
            (ascii "value too large: " ++ (decimal (length v) ++ ascii " bytes (max 1MB)")),
      )
  unfolding put_handler db_put validate_key validate_value into_response from_error display
  put_handler-long_value k v w fits over =
      let short : ltb d.max_key_bytes (length k) ≡ false = ground arith in
      let long : ltb d.max_value_bytes (length v) ≡ true = ground arith in rw (short, long) refl

module _ {W : Type 0} {L : Lmdb} (c : Context)
    (submit : Request → W → W × Result Bool ClientApiError) (node : W → DLmdb L)
    (keep : DLmdb L → W → W)
    (confirm : ConsistencyLevel → Bytes → W → Result (Option Bytes) ClientApiError) (now : ℕ) where
  abbrev served : KvRequest → W → W × Response
  served = route c submit node keep confirm now

  by_method-invalid :
      (m : Method) (req : KvRequest) (w : W) {rejection : ℕ × Bytes}
      → valid_key req.key ≡ err rejection
      → by_method c submit node keep confirm now m req w ≡ (w, text_response rejection)
  by_method-invalid get req w h = rw (h, with_key) refl
  by_method-invalid put req w h = rw (h, with_key) refl
  by_method-invalid delete req w h = rw (h, with_key) refl

  -- a PUT with a valid key and a whole body comes to its handler
  route-put :
      (req : KvRequest) (w : W) (x : ℕ) (s body : Bytes)
      → req.method ≡ put
      → req.key ≡ ok (x ∷ s)
      → HasNoSlash (x ∷ s)
      → req.body ≡ ok body
      → served req w ≡ put_handler c submit (node w) (x ∷ s) body w
  unfolding route
  route-put req w x s body is_put key valid whole =
      ap (λ m. by_method c submit node keep confirm now m req w) is_put
      ∙ rw (key, valid_key-ok x s valid, with_key, whole, put_with) refl

  module _ (reads_visible : ReadsVisible c.axum) (reads_ascii : ReadsAscii c.axum) where
    json_kept :
        (text : Bytes)
        → normalize_error_body c.axum (json_error c.axum 400 text) ≡ json_error c.axum 400 text
    unfolding lookup
    json_kept text = normalize_json c.axum (json_error c.axum 400 text) refl (
        json_response-is_json c.axum (reads_visible application_json (ground arith)) 400
          (record { error = text; leader_hint = none; trace_id = none }))

    text-is_json : (text : Bytes) → is_json c.axum (text_response (400, text)) ≡ false
    unfolding lookup cmp starts_with
    text-is_json text = rw (reads_visible (ascii "text/plain; charset=utf-8") (ground arith)) refl

    text_wrapped :
        (text : Bytes)
        → All (λ c. c < 128) text
        → normalize_error_body c.axum (text_response (400, text)) ≡ json_error c.axum 400 text
    text_wrapped text is_ascii =
        normalize_text c.axum (text_response (400, text)) text refl (text-is_json text) refl
          (reads_ascii text is_ascii)

    answered :
        (req : KvRequest) (w : W) (text : Bytes)
        → Refused (node w) req text
        → (r : Response) × (served req w ≡ (w, r))
          × (normalize_error_body c.axum r ≡ json_error c.axum 400 text)
    unfolding route
    answered req w text (bad_key bad) = (
      text_response (400, text),
      by_method-invalid req.method req w (valid_key-BadKey req.key text bad),
      text_wrapped text (BadKey-IsAscii req.key text bad),
    )
    answered req w text (long_key x s body is_put key valid whole over) = (
      _,
      route-put req w x s body is_put key valid whole
          ∙ put_handler-long_key submit (node w) c (x ∷ s) body w over,
      json_kept text,
    )
    answered req w text (long_value x s body is_put key valid whole fits over) = (
      _,
      route-put req w x s body is_put key valid whole
          ∙ put_handler-long_value submit (node w) c (x ∷ s) body w fits over,
      json_kept text,
    )

    -- Where header values in visible ASCII read back as text and the lossy decoder gives back ASCII, a
    -- request of any method whose key is not UTF-8, is empty or has a slash, and a PUT under a valid
    -- key with a key or a value over its limit, that the body limit lets through, is answered with
    -- status 400, the content type of JSON and a JSON body of a message alone, which says what was
    -- wrong, and leaves the node and the cluster as they were.
    pub app_rejects :
        (limit_layer : ℕ → (KvRequest → W → W × Response) → KvRequest → W → W × Response)
        (db : DLmdb L) (req : KvRequest) (w : W) (text : Bytes)
        → limit_layer (body_limit db) served req w ≡ served req w
        → Refused (node w) req text
        → app c.axum limit_layer db served req w ≡ (w, json_error c.axum 400 text)
    unfolding app
    app_rejects limit_layer db req w text passed refused =
        let (r, made, normalized) = answered req w text refused in
        ap (λ p. (p.0, normalize_error_body c.axum p.1)) (passed ∙ made)
        ∙ ap (λ r. (w, r)) normalized
