-- ===== src/Db/Read/Multi.antt =====
-- `get_multi` of d-lmdb/src/db.rs.
use mathlib.Core.Path.{ap₂}
use d_lmdb.Base.{
  ℕ, ◌≤◌, ◌≡◌, refl, sym, ◌∙◌, Option, List, [], ◌∷◌, ok, All, ok-injective, Result-cases, inl, inr,
}
use d_lmdb.Bytes.{Bytes}
use d_lmdb.Lmdb.{Lmdb, IsLawful}
use d_lmdb.Machine.Apply.Spec.{KeyValues, reads}
use d_lmdb.Db.Read.{DLmdb, fetch_local, get, get_multi}
use d_lmdb.Db.Read.Reap.{visible, SameFrom, get_shows}

-- the clock does not go back from one read to a later one
abbrev pub Rising : List (Bytes × ℕ) → Type 0
Rising [] = Unit
Rising ((key, now) ∷ keys) = All (λ p. now ≤ p.1) keys × Rising keys

-- what each key shows at its time
abbrev pub seen_by : KeyValues → List (Bytes × ℕ) → List (Option Bytes)
seen_by f [] = []
seen_by f ((key, now) ∷ keys) = visible f now key ∷ seen_by f keys

module _ {L : Lmdb} (laws : IsLawful L) where
  seen_by-SameFrom :
      (f g : KeyValues) (now : ℕ) (keys : List (Bytes × ℕ))
      → SameFrom laws now f g
      → All (λ p. now ≤ p.1) keys
      → seen_by g keys ≡ seen_by f keys
  seen_by-SameFrom f g now [] same later = refl
  seen_by-SameFrom f g now ((key, t) ∷ keys) same later =
      ap₂ (λ x xs. x ∷ xs) (same t key later.0) (seen_by-SameFrom f g now keys same later.1)

  -- A successful `get_multi`, under a clock that does not go back, returns for each of the keys in
  -- their order what the state from before the call shows at the time of the key's read, though
  -- the call reaps on the way.
  pub get_multi_shows :
      (d : DLmdb L) (keys : List (Bytes × ℕ)) {rs : List (Option Bytes)}
      → Rising keys
      → (get_multi d keys).1 ≡ ok rs
      → rs ≡ seen_by (reads d.state_machine) keys
  unfolding get_multi get
  get_multi_shows d [] rising h = sym (ok-injective _ _ h)
  get_multi_shows d ((key, now) ∷ keys) {rs} rising h =
      let d' = (fetch_local d key now).0 in
      elim (Result-cases (fetch_local d key now).1) [
        | inr (x, e) ↦ cc (rw (e, get_multi) at h)
        | inl (v, e) ↦
            let (shows, same) = get_shows laws d key now e in
            elim (Result-cases (get_multi d' keys).1) [
              | inr (x, f) ↦ cc (rw (e, f, get_multi) at h)
              | inl (vs, f) ↦
                  let rest = get_multi_shows d' keys rising.1 f in
                  sym (ok-injective (v ∷ vs) rs (rw (e, f, get_multi) at h))
                  ∙ ap₂ (λ x xs. x ∷ xs) shows
                      (rest
                        ∙ seen_by-SameFrom (reads d.state_machine) (reads d'.state_machine) now keys
                            same rising.0)
            ]
      ]
