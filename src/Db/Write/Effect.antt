-- ===== src/Db/Write/Effect.antt =====
-- The writes of d-lmdb/src/db.rs, as later reads see them. The engine's promise is a hypothesis: when a call of its
-- client succeeds, this node's state machine has applied the entry of the request.
use d_lmdb.Base.{
  ℕ, ◌+◌, ◌%◌, ◌^◌, ◌<◌, ◌≤◌, ◌≡◌, refl, sym, ap, ◌∙◌, Bool, some, none, List, Result, ok, err,
  arith, ◌⊎◌, ◌≢◌, length, Result-cases, inl, inr, ltb, if◌then◌else◌,
}
use d_lmdb.Bytes.{Bytes}
use d_lmdb.Lmdb.{Lmdb, IsLawful}
use d_lmdb.Wire.{encode_raw, encode_ttl}
use d_lmdb.Machine.Types.{Command, LmdbStateMachine, ApplyResult}
use d_lmdb.Machine.Apply.{apply_chunk}
use d_lmdb.Machine.Apply.Spec.{reads}
use d_lmdb.Machine.Apply.Chunk.{apply_chunk-Refines}
use d_lmdb.Db.Types.{Error, ClientApiError}
use d_lmdb.Db.Decode.{validate_key, validate_value}
use d_lmdb.Db.Decode.Expiry.{shown, live-encode_raw, live-encode_ttl}
use d_lmdb.Db.Read.{DLmdb}
use d_lmdb.Db.Read.Reap.{visible, shown_raw}
use d_lmdb.Db.Read.Race.{one, run_insert}
use d_lmdb.Db.Write.{Request, expires_at, Call, send_unit, checked, db_put, put_with_ttl}

-- the log entry's command for a request: the engine is given no time to live
abbrev pub to_command : Request → Command
to_command (Request.put k v) = Command.insert k v 0
to_command (Request.delete k) = Command.delete k
to_command (Request.batch ops) = Command.batch ops
to_command (Request.compare_and_swap k e v) = Command.compare_and_swap k e v

-- `machine` is the state machine of this node within the cluster.
pub record Commits {W : Type 0} {L : Lmdb} (machine : W → LmdbStateMachine L)
    (submit : Request → W → W × Result Bool ClientApiError) : Type 0 where
  pub applies :
      (r : Request) (w : W) {b : Bool}
      → (submit r w).1 ≡ ok b
      → (i : ℕ) × (u : ℕ) × (rs : List ApplyResult) × (apply_chunk
            (machine w)
            (one i u (to_command r))
          ≡ (machine (submit r w).0, ok rs))

module _ {W : Type 0} {L : Lmdb} (laws : IsLawful L) (machine : W → LmdbStateMachine L)
    (submit : Request → W → W × Result Bool ClientApiError) (commits : Commits machine submit) where
  checked_twice :
      (a b : Result (Unit {0}) Error) (call : Call submit (Unit {0})) (w : W)
      → (checked submit a (checked submit b call) w).1 ≡ ok tt
      → checked submit a (checked submit b call) w ≡ call w
  checked_twice (ok u) (ok v) call w h = refl
  checked_twice (ok u) (err e) call w h = cc
  checked_twice (err e) b call w h = cc

  -- A put that succeeded has stored its bytes.
  sent_put :
      (k v : Bytes) (w : W)
      → (send_unit submit (Request.put k v) w).1 ≡ ok tt
      → reads (machine (send_unit submit (Request.put k v) w).0) k ≡ some v
  sent_put k v w h = elim (Result-cases (submit (Request.put k v) w).1) [
    | inl (b, e) ↦
        let (i, u, rs, applied) = commits.applies (Request.put k v) w e in
        let after =
          apply_chunk-Refines laws (machine w) (one i u (Command.insert k v 0))
            (ap (λ p. p.1) applied) in
        ap (λ p. reads p.0 k) (sym applied)
        ∙ ap (λ f. f k) after.keys
        ∙ run_insert i u k v 0 (reads (machine w))
    | inr (x, e) ↦ cc (rw e at h)
  ]

  guarded_put :
      (a b : Result (Unit {0}) Error) (k v : Bytes) (w : W)
      → (checked submit a (checked submit b (send_unit submit (Request.put k v))) w).1 ≡ ok tt
      → reads
          (machine (checked submit a (checked submit b (send_unit submit (Request.put k v))) w).0)
          k
        ≡ some v
  guarded_put a b k v w h =
      let same = checked_twice a b (send_unit submit (Request.put k v)) w h in
      ap (λ p. reads (machine p.0) k) same ∙ sent_put k v w (sym (ap (λ p. p.1) same) ∙ h)

  pub db_put-reads :
      (d : DLmdb L) (k v : Bytes) (w : W)
      → (db_put submit d k v w).1 ≡ ok tt
      → reads (machine (db_put submit d k v w).0) k ≡ some (encode_raw v)
  unfolding db_put
  db_put-reads d k v w h =
      guarded_put (validate_key k d.max_key_bytes) (validate_value v d.max_value_bytes) k
        (encode_raw v) w h

  -- After a successful `put`, which the engine applied on this node, the key shows the value
  -- there, at any time.
  pub visible-db_put :
      (d : DLmdb L) (k v : Bytes) (w : W) (t : ℕ)
      → (db_put submit d k v w).1 ≡ ok tt
      → visible (reads (machine (db_put submit d k v w).0)) t k ≡ some v
  visible-db_put d k v w t h =
      ap (λ o. shown_raw o t) (db_put-reads d k v w h) ∙ ap shown (live-encode_raw v t)

  ttl_shown :
      (v : Bytes) (ts t : ℕ)
      → ts < 2 ^ 64
      → shown_raw (some (encode_ttl v (some ts))) t ≡ (if ltb t ts then some v else none)
  ttl_shown v ts t h = ap shown (live-encode_ttl v ts t h) ∙ ground arith

  -- After a successful `put_with_ttl` at `now`, which the engine applied on this node, the key shows
  -- the value there at the times before the sum of `now` and `ttl`, wrapped at 64 bits, and nothing
  -- from then on.
  pub put_with_ttl_shows :
      (d : DLmdb L) (k v : Bytes) (ttl now : ℕ) (w : W) (t : ℕ)
      → (put_with_ttl submit d k v ttl now w).1 ≡ ok tt
      → visible (reads (machine (put_with_ttl submit d k v ttl now w).0)) t k
        ≡ (if ltb t ((now + ttl) % 2 ^ 64) then some v else none)
  unfolding put_with_ttl
  put_with_ttl_shows d k v ttl now w t h =
      ap (λ o. shown_raw o t)
        (guarded_put (validate_key k d.max_key_bytes) (validate_value v d.max_value_bytes) k
          (encode_ttl v (some (expires_at now ttl))) w h)
      ∙ ttl_shown v (expires_at now ttl) t (omega arith)

  -- After a successful `put_with_ttl` at `now`, which the engine applied on this node, where
  -- `now + ttl` fits 64 bits, the key shows the value there at the times before `now + ttl`, and
  -- nothing from then on.
  pub visible-put_with_ttl :
      (d : DLmdb L) (k v : Bytes) (ttl now : ℕ) (w : W) (t : ℕ)
      → now + ttl < 2 ^ 64
      → (put_with_ttl submit d k v ttl now w).1 ≡ ok tt
      → visible (reads (machine (put_with_ttl submit d k v ttl now w).0)) t k
        ≡ (if ltb t (now + ttl) then some v else none)
  visible-put_with_ttl d k v ttl now w t fits h =
      let exact : (now + ttl) % 2 ^ 64 ≡ now + ttl = omega arith in
      put_with_ttl_shows d k v ttl now w t h
      ∙ ap (λ (e : ℕ). if ltb t e then some v else none) exact

  -- Where `now` and `ttl` fit 64 bits and their sum does not, a release build's sum wraps to a
  -- time before `now`: after a `put_with_ttl` that succeeded and was applied on this node, the
  -- key shows nothing, from the moment of the write on.
  pub put_with_ttl_wraps :
      (d : DLmdb L) (k v : Bytes) (ttl now : ℕ) (w : W) (t : ℕ)
      → now < 2 ^ 64
      → ttl < 2 ^ 64
      → 2 ^ 64 ≤ now + ttl
      → now ≤ t
      → (put_with_ttl submit d k v ttl now w).1 ≡ ok tt
      → visible (reads (machine (put_with_ttl submit d k v ttl now w).0)) t k ≡ none
  put_with_ttl_wraps d k v ttl now w t hn ht over le h =
      let past : (now + ttl) % 2 ^ 64 ≤ t = omega arith in
      put_with_ttl_shows d k v ttl now w t h ∙ ground arith

module _ {W : Type 0} (submit : Request → W → W × Result Bool ClientApiError) where
  refused_first :
      (a : Result (Unit {0}) Error) (call : Call submit (Unit {0})) (w : W)
      → a ≢ ok tt
      → ((checked submit a call w).0 ≡ w) × ((checked submit a call w).1 ≢ ok tt)
  refused_first (ok u) call w n = absurd (n refl)
  refused_first (err e) call w n = (refl, λ h. cc)

  refused_second :
      (a b : Result (Unit {0}) Error) (call : Call submit (Unit {0})) (w : W)
      → b ≢ ok tt
      → ((checked submit a (checked submit b call) w).0 ≡ w)
        × ((checked submit a (checked submit b call) w).1 ≢ ok tt)
  refused_second (ok u) b call w n = refused_first b call w n
  refused_second (err e) b call w n = (refl, λ h. cc)

-- A `put` of a key or a value beyond its limit never succeeds, and never reaches the engine.
pub put_within_limits :
    {W : Type 0} {L : Lmdb} (submit : Request → W → W × Result Bool ClientApiError) (d : DLmdb L)
    (k v : Bytes) (w : W)
    → (d.max_key_bytes < length k) ⊎ (d.max_value_bytes < length v)
    → ((db_put submit d k v w).0 ≡ w) × ((db_put submit d k v w).1 ≢ ok tt)
unfolding db_put validate_key validate_value
put_within_limits submit d k v w (inl h) =
    refused_first submit (validate_key k d.max_key_bytes) _ w (ground arith)
put_within_limits submit d k v w (inr h) =
    refused_second submit (validate_key k d.max_key_bytes) (validate_value v d.max_value_bytes) _ w
      (ground arith)
