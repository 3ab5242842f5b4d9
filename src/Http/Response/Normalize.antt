-- ===== src/Http/Response/Normalize.antt =====
-- The middleware `normalize_error_body` of d-lmdb-server/src/http/error.rs.
use d_lmdb.Base.{
  ℕ, ◌≤◌, ◌<◌, ◌≡◌, refl, sym, ap, ◌∙◌, ◌++◌, true, false, Option, some, none, [], ◌∷◌, Result, ok,
  err, arith, Bool-cases, ◌⊎◌, inl, inr, Option-cases, All,
}
use d_lmdb.Bytes.{Bytes, ascii, cmp, bytes_eq, starts_with}
use d_lmdb.Store.{lookup}
use d_lmdb.Http.Error.{ErrorBody}
use d_lmdb.Http.Response.{
  Axum, Response, content_type, application_json, is_error, json_response, is_json_type, is_json,
  message_of, wrapped, normalize_error_body,
}

-- A header's value that is plain text reads as itself.
abbrev pub ReadsJson : Axum → Type 0
ReadsJson axum = axum.to_str application_json ≡ some application_json

-- A header's value in visible ASCII reads as itself.
abbrev pub ReadsVisible : Axum → Type 0
ReadsVisible axum = (b : Bytes) → All (λ c. (32 ≤ c) × (c < 127)) b → axum.to_str b ≡ some b

-- The lossy decoder gives back a text in ASCII.
abbrev pub ReadsAscii : Axum → Type 0
ReadsAscii axum = (b : Bytes) → All (λ c. c < 128) b → axum.from_utf8_lossy b ≡ b

-- A JSON error as the server's clients expect it: the content type alone, and a message alone.
abbrev pub json_error : Axum → ℕ → Bytes → Response
json_error axum status text = record {
  status = status;
  headers = (ascii "content-type", ascii "application/json") ∷ [];
  body = ok (axum.to_json (record { error = text; leader_hint = none; trace_id = none }));
}

abbrev pub IsError : ℕ → Type 0
IsError status = (400 ≤ status) × (status ≤ 599)

-- the content type is text that starts with that of JSON
abbrev pub IsLabelled : Axum → Response → Type 0
IsLabelled axum r =
    (value : Bytes) × (rest : Bytes) × (lookup (ascii "content-type") r.headers ≡ some value)
    × (axum.to_str value ≡ some (ascii "application/json" ++ rest))

-- the text of a body, or a fixed one where it could not be read
pub data Says (axum : Axum) : Result Bytes (Unit {0}) → Bytes → Type 0 where
  whole : (b : Bytes) → Says axum (ok b) (axum.from_utf8_lossy b)
  broken : Says axum (err tt) (ascii "internal error")

-- what the middleware may make of a response
pub data Normalized (axum : Axum) (r r' : Response) : Type 0 where
  kept : (r.status < 400) ⊎ (599 < r.status) → r' ≡ r → Normalized axum r r'
  labelled : IsError r.status → IsLabelled axum r → r' ≡ r → Normalized axum r r'
  wrapped_text :
      IsError r.status
      → ¬ (IsLabelled axum r)
      → (text : Bytes) → Says axum r.body text
      → r' ≡ json_error axum r.status text
      → Normalized axum r r'

outside-IsError : (status : ℕ) → is_error status ≡ false → (status < 400) ⊎ (599 < status)
outside-IsError status h = ground arith

inside-IsError : (status : ℕ) → is_error status ≡ true → IsError status
inside-IsError status h = ground arith

starts_with-rest : (p k : Bytes) → starts_with p k ≡ true → (rest : Bytes) × (k ≡ p ++ rest)
unfolding starts_with
starts_with-rest [] k h = (k, refl)
starts_with-rest (x ∷ p) [] h = cc
starts_with-rest (x ∷ p) (y ∷ k) h = elim (Bool-cases (starts_with p k)) [
  | inl e ↦
      let (rest, same) = starts_with-rest p k e in
      let first : y ≡ x = ground arith in (rest, ap (λ z. z ∷ k) first ∙ ap (λ s. x ∷ s) same)
  | inr e ↦ ground arith
]

starts_with-append : (p rest : Bytes) → starts_with p (p ++ rest) ≡ true
unfolding starts_with
starts_with-append [] rest = refl
starts_with-append (x ∷ p) rest = ground (arith, starts_with-append p rest)

module _ (axum : Axum) where
  type-IsLabelled :
      (o : Option Bytes)
      → is_json_type axum o ≡ true
      → (value : Bytes) × (rest : Bytes) × (o ≡ some value)
        × (axum.to_str value ≡ some (ascii "application/json" ++ rest))
  type-IsLabelled none h = cc
  type-IsLabelled (some value) h = elim (Option-cases (axum.to_str value)) [
    | inl e ↦ cc (rw (e, is_json_type) at h)
    | inr (s, e) ↦
        let (rest, same) = starts_with-rest application_json s (rw (e, is_json_type) at h) in
        (value, rest, refl, e ∙ ap some same)
  ]

  pub is_json-IsLabelled : (r : Response) → is_json axum r ≡ true → IsLabelled axum r
  is_json-IsLabelled r h = type-IsLabelled (lookup content_type r.headers) h

  IsLabelled-is_json : (r : Response) → IsLabelled axum r → is_json axum r ≡ true
  IsLabelled-is_json r (value, rest, found, text) =
      rw (found, is_json_type, text) (starts_with-append application_json rest)

  said :
      (body : Result Bytes (Unit {0}))
      → (text : Bytes) × Says axum body text × (message_of axum body ≡ text)
  said (ok b) = (axum.from_utf8_lossy b, whole b, refl)
  said (err tt) = (ascii "internal error", broken, refl)

  pub normalize_json :
      (r : Response)
      → is_error r.status ≡ true
      → is_json axum r ≡ true
      → normalize_error_body axum r ≡ r
  unfolding normalize_error_body
  normalize_json r h json = rw (h, json)

  normalize_other :
      (r : Response)
      → is_error r.status ≡ true
      → is_json axum r ≡ false
      → normalize_error_body axum r ≡ wrapped axum r
  unfolding normalize_error_body
  normalize_other r h other = rw (h, other)

  pub normalize_success :
      (r : Response) → is_error r.status ≡ false → normalize_error_body axum r ≡ r
  unfolding normalize_error_body
  normalize_success r h = rw h refl

  -- an error that is not labelled, and whose body was read
  pub normalize_text :
      (r : Response) (text : Bytes)
      → is_error r.status ≡ true
      → is_json axum r ≡ false
      → r.body ≡ ok text
      → axum.from_utf8_lossy text ≡ text
      → normalize_error_body axum r ≡ json_error axum r.status text
  normalize_text r text h other read same =
      normalize_other r h other ∙ ap (json_error axum r.status) (ap (message_of axum) read ∙ same)

  -- An error response that is not JSON loses all its headers but the content type in the middleware,
  -- as the `Allow` header that a response with status 405 is to have.
  pub normalize-headers :
      (r : Response) (name : Bytes)
      → is_error r.status ≡ true
      → is_json axum r ≡ false
      → bytes_eq name content_type ≡ false
      → lookup name (normalize_error_body axum r).headers ≡ none
  unfolding lookup
  normalize-headers r name h other n = rw (normalize_other r h other) (ground arith)

module _ (axum : Axum) (reads_json : ReadsJson axum) where
  pub json_response-is_json :
      (status : ℕ) (body : ErrorBody) → is_json axum (json_response axum status body) ≡ true
  unfolding lookup cmp starts_with
  json_response-is_json status body = rw reads_json

  wrapped-is_json : (r : Response) → is_json axum (wrapped axum r) ≡ true
  wrapped-is_json r =
      json_response-is_json r.status
        (record { error = message_of axum r.body; leader_hint = none; trace_id = none })

  -- A second pass changes nothing.
  normalize-normalize :
      (r : Response)
      → normalize_error_body axum (normalize_error_body axum r) ≡ normalize_error_body axum r
  normalize-normalize r = elim (Bool-cases (is_error r.status)) [
    | inr success ↦ ap (normalize_error_body axum) (normalize_success axum r success)
    | inl h ↦ elim (Bool-cases (is_json axum r)) [
      | inl json ↦ ap (normalize_error_body axum) (normalize_json axum r h json)
      | inr other ↦
          let made = normalize_other axum r h other in
          ap (normalize_error_body axum) made
          ∙ normalize_json axum (wrapped axum r) h (wrapped-is_json r)
          ∙ sym made
    ]
  ]

  -- Every response leaves the middleware in one of three ways: a status that is not from 400 to 599
  -- as it is; an error whose content type starts with that of JSON as it is; any other error with
  -- its status, that content type alone, and a JSON body whose message is the text of the body, or
  -- a fixed one where the body could not be read. Where the JSON content type reads back as text, a
  -- second pass changes nothing.
  pub normalize-Normalized :
      (r : Response)
      → Normalized axum r (normalize_error_body axum r)
        × (normalize_error_body axum (normalize_error_body axum r) ≡ normalize_error_body axum r)
  normalize-Normalized r = (
    elim (Bool-cases (is_error r.status)) [
      | inr success ↦ kept (outside-IsError r.status success) (normalize_success axum r success)
      | inl h ↦ elim (Bool-cases (is_json axum r)) [
        | inl json ↦
            labelled (inside-IsError r.status h) (is_json-IsLabelled axum r json)
              (normalize_json axum r h json)
        | inr other ↦
            let (text, says, same) = said axum r.body in
            wrapped_text (inside-IsError r.status h)
              (λ l. cc (sym other ∙ IsLabelled-is_json axum r l)) text says
              (normalize_other axum r h other ∙ ap (json_error axum r.status) same)
      ]
    ],
    normalize-normalize r,
  )
