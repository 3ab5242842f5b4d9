-- ===== src/Db/Write/Conditional.antt =====
-- `put_if_absent` and `compare_and_swap` of d-lmdb/src/db.rs against what reads show.
use d_lmdb.Base.{
  ℕ, ◌<◌, ◌^◌, ◌≡◌, refl, ap, ◌∙◌, Bool, true, false, Option, some, none, Result, ok, arith,
  if◌then◌else◌,
}
use d_lmdb.Bytes.{Bytes, bytes_eq, cmp}
use d_lmdb.Bytes.Order.{bytes_eq_refl}
use d_lmdb.Lmdb.{Lmdb, IsLawful}
use d_lmdb.Wire.{encode_raw, encode_ttl}
use d_lmdb.Machine.Types.{LmdbStateMachine}
use d_lmdb.Machine.Apply.Spec.{KeyValues, update, holds, reads}
use d_lmdb.Db.Types.{ClientApiError}
use d_lmdb.Db.Decode.{expired, decode_live_value}
use d_lmdb.Db.Decode.Expiry.{shown, live-encode_raw, live-encode_ttl}
use d_lmdb.Db.Read.{DLmdb}
use d_lmdb.Db.Read.Reap.{visible, shown_raw}
use d_lmdb.Db.Write.{Request, put_if_absent, db_compare_and_swap}
use d_lmdb.Db.Write.Swap.{Reports, sent_swap}

abbrev is_none {ℓ} : {A : Type ℓ} → Option A → Bool
is_none none = true
is_none (some a) = false

holds-none : (o : Option Bytes) → holds o none ≡ is_none o
holds-none none = refl
holds-none (some c) = refl

holds_raw : (x e : Bytes) → holds (some (encode_raw x)) (some (encode_raw e)) ≡ bytes_eq x e
unfolding encode_raw cmp
holds_raw x e = refl

pub holds_ttl :
    (x e : Bytes) (ts : ℕ) → holds (some (encode_ttl x (some ts))) (some (encode_raw e)) ≡ false
unfolding encode_raw encode_ttl cmp
holds_ttl x e ts = refl

written :
    (f : KeyValues) (k v : Bytes) (b : Bool) (t : ℕ)
    → visible (if b then update f k (some (encode_raw v)) else f) t k
      ≡ (if b then some v else visible f t k)
written f k v true t = rw (bytes_eq_refl k) (ap shown (live-encode_raw v t))
written f k v false t = refl

module _ {W : Type 0} {L : Lmdb} (laws : IsLawful L) (machine : W → LmdbStateMachine L)
    (submit : Request → W → W × Result Bool ClientApiError) (reports : Reports machine submit)
    (d : DLmdb L) where
  -- `put_if_absent`, where the client answers, gives `true` exactly if nothing is stored under the
  -- key; then the key shows the value, and otherwise what it showed before, at any time.
  pub put_if_absent_shows :
      (k v : Bytes) (w : W) (t : ℕ) {b : Bool}
      → (put_if_absent submit d k v w).1 ≡ ok b
      → (b ≡ is_none (reads (machine w) k))
        × (visible (reads (machine (put_if_absent submit d k v w).0)) t k
            ≡ (if b then some v else visible (reads (machine w)) t k))
  unfolding put_if_absent
  put_if_absent_shows k v w t {b} h =
      let (answer, left) = sent_swap laws machine submit reports k none (encode_raw v) w b h in
      (
        answer ∙ holds-none (reads (machine w) k),
        ap (λ f. visible f t k) left ∙ written (reads (machine w)) k v b t,
      )

  -- Where the stored value has expired and was not reaped, a `put_if_absent` that the client
  -- answers gives `false` and leaves everything that this node stores as it was, under this key and
  -- every other, although the key shows nothing before, and still shows nothing after it.
  pub put_if_absent-expired :
      (k v raw : Bytes) (w : W) (now : ℕ) {b : Bool}
      → reads (machine w) k ≡ some raw
      → decode_live_value raw now ≡ ok expired
      → (put_if_absent submit d k v w).1 ≡ ok b
      → (visible (reads (machine w)) now k ≡ none)
        × (b ≡ false)
        × (reads (machine (put_if_absent submit d k v w).0) ≡ reads (machine w))
        × (visible (reads (machine (put_if_absent submit d k v w).0)) now k ≡ none)
  unfolding put_if_absent
  put_if_absent-expired k v raw w now {b} holds_raw gone h =
      let (answer, left) = sent_swap laws machine submit reports k none (encode_raw v) w b h in
      let refused : b ≡ false = answer ∙ holds-none (reads (machine w) k) ∙ ap is_none holds_raw in
      let nothing : visible (reads (machine w)) now k ≡ none =
        ap (λ o. shown_raw o now) holds_raw ∙ ap shown gone in
      let kept : reads (machine (put_if_absent submit d k v w).0) ≡ reads (machine w) =
        left
        ∙ ap
            (λ (x : Bool).
              if x then update (reads (machine w)) k (some (encode_raw v)) else reads (machine w))
            refused in
      (nothing, refused, kept, ap (λ f. visible f now k) kept ∙ nothing)

  -- Where a key holds a value without expiry, `compare_and_swap` with an expected value, where the
  -- client answers, gives `true` exactly if the two values are the same bytes; then the key shows the
  -- new value, and otherwise the old one, at any time.
  pub compare_and_swap_shows :
      (k x e v : Bytes) (w : W) (t : ℕ) {b : Bool}
      → reads (machine w) k ≡ some (encode_raw x)
      → (db_compare_and_swap submit d k (some e) v w).1 ≡ ok b
      → (b ≡ bytes_eq x e)
        × (visible (reads (machine (db_compare_and_swap submit d k (some e) v w).0)) t k
            ≡ some (if b then v else x))
  unfolding db_compare_and_swap
  compare_and_swap_shows k x e v w t {b} held h =
      let (answer, left) =
        sent_swap laws machine submit reports k (some (encode_raw e)) (encode_raw v) w b h in
      (
        answer ∙ ap (λ o. holds o (some (encode_raw e))) held ∙ holds_raw x e,
        ap (λ f. visible f t k) left
            ∙ written (reads (machine w)) k v b t
            ∙ ap (λ (o : Option Bytes). if b then some v else o)
                (ap (λ o. shown_raw o t) held ∙ ap shown (live-encode_raw x t))
            ∙ pushed b,
      )
    where
      pushed : (b : Bool) → (if b then some v else some x) ≡ some (if b then v else x)
      pushed b = ground arith

  -- While a value with an expiry of 64 bits is live, a read shows its payload, but a
  -- `compare_and_swap` that the client answers gives `false` whatever value is expected, that
  -- payload included, and leaves the value.
  pub compare_and_swap-ttl :
      (k x e v : Bytes) (ts : ℕ) (w : W) (now : ℕ) {b : Bool}
      → ts < 2 ^ 64
      → now < ts
      → reads (machine w) k ≡ some (encode_ttl x (some ts))
      → (db_compare_and_swap submit d k (some e) v w).1 ≡ ok b
      → (visible (reads (machine w)) now k ≡ some x)
        × (b ≡ false)
        × (visible (reads (machine (db_compare_and_swap submit d k (some e) v w).0)) now k ≡ some x)
  unfolding db_compare_and_swap
  compare_and_swap-ttl k x e v ts w now {b} fits live held h =
      let (answer, left) =
        sent_swap laws machine submit reports k (some (encode_raw e)) (encode_raw v) w b h in
      let refused : b ≡ false =
        answer ∙ ap (λ o. holds o (some (encode_raw e))) held ∙ holds_ttl x e ts in
      let shows : visible (reads (machine w)) now k ≡ some x =
        ap (λ o. shown_raw o now) held ∙ ap shown (live-encode_ttl x ts now fits) ∙ ground arith in
      (
        shows,
        refused,
        ap (λ f. visible f now k) left
            ∙ written (reads (machine w)) k v b now
            ∙ ap (λ (y : Bool). if y then some v else visible (reads (machine w)) now k) refused
            ∙ shows,
      )
