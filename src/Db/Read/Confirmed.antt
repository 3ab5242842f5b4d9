-- ===== src/Db/Read/Confirmed.antt =====
-- `get_linearizable` and `get_lease` of d-lmdb/src/db.rs.
use d_lmdb.Base.{
  ℕ, ◌≡◌, refl, sym, ap, ◌∙◌, Bool, true, false, Option, some, none, Result, ok, err, ok-injective,
  if◌then◌else◌,
}
use d_lmdb.Bytes.{Bytes}
use d_lmdb.Lmdb.{Lmdb, IsLawful}
use d_lmdb.Machine.Apply.{delete_local}
use d_lmdb.Machine.Apply.Spec.{update, reads}
use d_lmdb.Db.Types.{Error, ClientApiError}
use d_lmdb.Db.Decode.{DecodedValue, present, expired, decode_live_value}
use d_lmdb.Db.Decode.Expiry.{shown}
use d_lmdb.Db.Read.{DLmdb, reap, decode_and_reap, get_confirmed}
use d_lmdb.Db.Read.Reap.{shown_raw, delete_local-reads, reaped_parts}

abbrev pub is_expired : Result DecodedValue Error → Bool
is_expired (ok expired) = true
is_expired (ok (present p)) = false
is_expired (err e) = false

-- whether the bytes that the engine gave have expired
abbrev pub has_expired : Option Bytes → ℕ → Bool
has_expired none now = false
has_expired (some raw) now = is_expired (decode_live_value raw now)

module _ {L : Lmdb} (laws : IsLawful L) where
  reap-reads :
      (d : DLmdb L) (k : Bytes) (v : Result DecodedValue Error) {r : Option Bytes}
      → (reap d k v).1 ≡ ok r
      → (r ≡ shown v)
        × (reads (reap d k v).0.state_machine ≡ (
            if is_expired v then update (reads d.state_machine) k none else reads d.state_machine))
  reap-reads d k (ok (present p)) h = (sym (ok-injective _ _ h), refl)
  reap-reads d k (err x) h = cc
  reap-reads d k (ok expired) h =
      let (done, nothing, kept) = reaped_parts laws d (delete_local d.state_machine k) h in
      (nothing, ap (λ m. reads m) kept ∙ delete_local-reads laws d.state_machine k done)

  -- A confirmed read that succeeds returns what is live at that time in the bytes that the engine
  -- gave, and nothing where it gave none. If they have expired, it removes the key from this node,
  -- whatever this node holds under it, and otherwise it changes nothing here.
  pub get_confirmed_shows :
      (d : DLmdb L) (k : Bytes) (answer : Result (Option Bytes) ClientApiError) (now : ℕ)
      {r : Option Bytes}
      → (get_confirmed d k answer now).1 ≡ ok r
      → (raw : Option Bytes) × (answer ≡ ok raw)
        × (r ≡ shown_raw raw now)
        × (reads (get_confirmed d k answer now).0.state_machine ≡ (
            if has_expired raw now
            then update (reads d.state_machine) k none
            else reads d.state_machine))
  unfolding get_confirmed decode_and_reap
  get_confirmed_shows d k (err e) now h = cc
  get_confirmed_shows d k (ok none) now h = (none, refl, sym (ok-injective _ _ h), refl)
  get_confirmed_shows d k (ok (some raw)) now h =
      let (same, left) = reap-reads d k (decode_live_value raw now) h in
      (some raw, refl, same, left)
