-- ===== src/Wal/Log.antt =====
-- The log as a function from indices to stored entries, under its operations.
use Prim.Native.Nat.{max}
use d_lmdb.Base.{
  ℕ, ◌<◌, ◌^◌, ◌==◌, ◌≡◌, refl, sym, ap, ◌∙◌, true, Option, some, none, List, [], ◌∷◌, ◌&&◌, ok,
  arith, All, ltb, leb, if◌then◌else◌, >>=-eq-ok, map_err-eq-ok, ok-injective, Result-cases, inl,
  inr,
}
use d_lmdb.Bytes.{Bytes, bytes_eq, bytes_lt, bytes_le}
use d_lmdb.Bytes.Word.{to_be, cmp-to_be}
use d_lmdb.Store.{Bound, included, unbounded, above_start, below_end, lookup}
use d_lmdb.Store.Lookup.{lookup-insert, lookup-without}
use d_lmdb.Lmdb.{Lmdb, log, IsLawful}
use d_lmdb.Wal.{
  Codec, LmdbWal, db_err, put_entries, write_entries, persisted, persist_entries, truncate_log,
  truncated, truncate,
}

-- what the log stores at an index
abbrev pub stored_at : {L : Lmdb} → LmdbWal L → ℕ → Option Bytes
stored_at {L} w j = lookup (to_be 8 j) (L.contents w.env log)

-- the specification: later entries of the list win, entries at other indices stay
unfoldable pub appended : (C : Codec) → List C.Entry → (ℕ → Option Bytes) → ℕ → Option Bytes
appended C [] f = f
appended C (e ∷ es) f = appended C es (λ j. if j == C.index e then some (C.encode_entry e) else f j)

abbrev pub InRange : (C : Codec) → List C.Entry → Type 0
InRange C es = All (λ e. C.index e < 2 ^ 64) es

pub bytes_eq-to_be :
    (i j : ℕ) → i < 2 ^ 64 → j < 2 ^ 64 → bytes_eq (to_be 8 i) (to_be 8 j) ≡ (i == j)
bytes_eq-to_be i j h k = ground (arith, cmp-to_be 8 i j h k)

pub bytes_le-to_be :
    (i j : ℕ) → i < 2 ^ 64 → j < 2 ^ 64 → bytes_le (to_be 8 i) (to_be 8 j) ≡ leb i j
bytes_le-to_be i j h k = ground (arith, cmp-to_be 8 i j h k)

pub bytes_lt-to_be :
    (i j : ℕ) → i < 2 ^ 64 → j < 2 ^ 64 → bytes_lt (to_be 8 i) (to_be 8 j) ≡ ltb i j
bytes_lt-to_be i j h k = ground (arith, cmp-to_be 8 i j h k)

appended_cong :
    (C : Codec) (es : List C.Entry) (f g : ℕ → Option Bytes) (j : ℕ)
    → f j ≡ g j
    → appended C es f j ≡ appended C es g j
unfolding appended
appended_cong C [] f g j h = h
appended_cong C (e ∷ es) f g j h =
    appended_cong C es _ _ j (ap (λ o. if j == C.index e then some (C.encode_entry e) else o) h)

module _ {L : Lmdb} (laws : IsLawful L) (C : Codec) where
  put_entries-appends :
      (t : L.Txn) (es : List C.Entry) (n : ℕ) {a : L.Txn × ℕ} (j : ℕ)
      → j < 2 ^ 64
      → InRange C es
      → put_entries L C t es n ≡ ok a
      → lookup (to_be 8 j) (L.view a.0 log)
        ≡ appended C es (λ i. lookup (to_be 8 i) (L.view t log)) j
  unfolding put_entries appended
  put_entries-appends t [] n j hj r h =
      ap (λ a. lookup (to_be 8 j) (L.view a.0 log)) (sym (ok-injective _ _ h))
  put_entries-appends t (e ∷ es) n j hj r h =
      let (t1, put, rest) =
        >>=-eq-ok (db_err L (L.put t log (to_be 8 (C.index e)) (C.encode_entry e))) _ h in
      put_entries-appends t1 es (max n (C.index e)) j hj r.1 rest
      ∙ appended_cong C es _ _ j (
          ap (lookup (to_be 8 j)) (laws.put_changes t log _ _ (map_err-eq-ok _ _ put) log)
          ∙ lookup-insert (to_be 8 (C.index e)) (to_be 8 j) (C.encode_entry e) (L.view t log)
          ∙ ap (λ b. if b then some (C.encode_entry e) else lookup (to_be 8 j) (L.view t log))
              (bytes_eq-to_be j (C.index e) hj r.0))

  write_entries-appends :
      (env : L.Env) (es : List C.Entry) {a : L.Env × ℕ} (j : ℕ)
      → j < 2 ^ 64
      → InRange C es
      → write_entries L C env es ≡ ok a
      → lookup (to_be 8 j) (L.contents a.0 log)
        ≡ appended C es (λ i. lookup (to_be 8 i) (L.contents env log)) j
  unfolding write_entries
  write_entries-appends env es j hj r h =
      let (t, began, h1) = >>=-eq-ok (db_err L (L.write_txn env)) _ h in
      let (b, put, h2) = >>=-eq-ok (put_entries L C t es 0) _ h1 in
      let (env', ended, h3) = >>=-eq-ok (db_err L (L.commit env b.0)) _ h2 in
      ap (λ a. lookup (to_be 8 j) (L.contents a.0 log)) (sym (ok-injective (env', b.1) _ h3))
      ∙ ap (λ v. lookup (to_be 8 j) (v log))
          (laws.commit_contents env b.0 (map_err-eq-ok _ _ ended))
      ∙ put_entries-appends t es 0 j hj r put
      ∙ ap (λ v. appended C es (λ i. lookup (to_be 8 i) (v log)) j)
          (laws.write_view env (map_err-eq-ok _ _ began))

  -- After a successful `persist_entries` of entries whose indices have 64 bits, every such index
  -- holds the encoding of the last entry of the list with that index, and what it held before
  -- where the list has none.
  pub persist_entries-appends :
      (w : LmdbWal L) (es : List C.Entry) (j : ℕ)
      → j < 2 ^ 64
      → InRange C es
      → (persist_entries L C w es).1 ≡ ok tt
      → stored_at (persist_entries L C w es).0 j ≡ appended C es (stored_at w) j
  unfolding persist_entries
  persist_entries-appends w [] j hj r h = unfold appended in refl
  persist_entries-appends w (e ∷ es) j hj r h =
      elim (Result-cases (write_entries L C w.env (e ∷ es))) [
        | inl (a, q) ↦ rw (q, persisted) (write_entries-appends w.env (e ∷ es) j hj r q)
        | inr (x, q) ↦ cc (rw (q, persisted) at h)
      ]

  pub cut :
      (t : L.Txn) (lo hi : Bound) (j : ℕ) {t' : L.Txn}
      → db_err L (L.delete_range t log lo hi) ≡ ok t'
      → lookup (to_be 8 j) (L.view t' log) ≡ (
          if above_start lo (to_be 8 j) && below_end hi (to_be 8 j)
          then none
          else lookup (to_be 8 j) (L.view t log))
  cut t lo hi j h =
      ap (lookup (to_be 8 j)) (laws.delete_range_changes t log lo hi (map_err-eq-ok _ _ h) log)
      ∙ lookup-without lo hi (to_be 8 j) (L.view t log)

  truncate_log-cuts :
      (env : L.Env) (from j : ℕ) {a : L.Env × ℕ}
      → j < 2 ^ 64
      → from < 2 ^ 64
      → truncate_log L C env from ≡ ok a
      → lookup (to_be 8 j) (L.contents a.0 log)
        ≡ (if ltb j from then lookup (to_be 8 j) (L.contents env log) else none)
  unfolding truncate_log
  truncate_log-cuts env from j hj hf h =
      let (t, began, h1) = >>=-eq-ok (db_err L (L.write_txn env)) _ h in
      let (t1, deleted, h2) =
        >>=-eq-ok (db_err L (L.delete_range t log (included (to_be 8 from)) unbounded)) _ h1 in
      let (tail, looked, h3) = >>=-eq-ok (db_err L (L.last t1 log)) _ h2 in
      let (env', ended, h4) = >>=-eq-ok (db_err L (L.commit env t1)) _ h3 in
      ap (λ a. lookup (to_be 8 j) (L.contents a.0 log)) (sym (ok-injective (env', _) _ h4))
      ∙ ap (λ v. lookup (to_be 8 j) (v log)) (laws.commit_contents env t1 (map_err-eq-ok _ _ ended))
      ∙ cut t (included (to_be 8 from)) unbounded j deleted
      ∙ ap
          (λ v.
            if bytes_le (to_be 8 from) (to_be 8 j) && true
            then none
            else lookup (to_be 8 j) (v log))
          (laws.write_view env (map_err-eq-ok _ _ began))
      ∙ flipped from j hj hf (lookup (to_be 8 j) (L.contents env log))
    where
      flipped :
          (from j : ℕ)
          → j < 2 ^ 64
          → from < 2 ^ 64
          → (o : Option Bytes)
          → (if bytes_le (to_be 8 from) (to_be 8 j) && true then none else o)
            ≡ (if ltb j from then o else none)
      flipped from j hj hf o = ground (arith, bytes_le-to_be from j hf hj)

  -- A successful `truncate` removes the entries at `from` and above, and keeps those below, for
  -- indices of 64 bits.
  pub truncate-cuts :
      (w : LmdbWal L) (from j : ℕ)
      → j < 2 ^ 64
      → from < 2 ^ 64
      → (truncate L C w from).1 ≡ ok tt
      → stored_at (truncate L C w from).0 j ≡ (if ltb j from then stored_at w j else none)
  unfolding truncate
  truncate-cuts w from j hj hf h = elim (Result-cases (truncate_log L C w.env from)) [
    | inl (a, q) ↦ rw (q, truncated) (truncate_log-cuts w.env from j hj hf q)
    | inr (x, q) ↦ cc (rw (q, truncated) at h)
  ]
