-- ===== src/Programs/Counter/Round.antt =====
-- One round of the counter's loop, over a key that holds no value with an expiry.
use d_lmdb.Base.{
  ℕ, ◌≡◌, refl, sym, ap, ◌∙◌, Bool, true, Option, none, some, ok, if◌then◌else◌, Result-cases, inl,
  inr, ok-injective,
}
use mathlib.Core.Option
use d_lmdb.Bytes.{Bytes}
use d_lmdb.Bytes.Order.{bytes_eq_refl}
use d_lmdb.Lmdb.{Lmdb, IsLawful}
use d_lmdb.Wire.{encode_raw}
use d_lmdb.Machine.Types.{LmdbStateMachine}
use d_lmdb.Machine.Apply.Spec.{KeyValues, update, holds, reads}
use d_lmdb.Machine.Scan
use d_lmdb.Db.Decode.{decode_live_value, present}
use d_lmdb.Db.Decode.Expiry.{live-encode_raw}
use d_lmdb.Db.Read
use d_lmdb.Db.Read.{DLmdb, reap, decode_and_reap, fetch_local}
use d_lmdb.Db.Read.Reap.{get-lookup}
use d_lmdb.Db.Write.{Request, db_compare_and_swap, send}
use d_lmdb.Db.Write.Swap.{Reports, sent_swap}
use d_lmdb.Host.{Step, after, ◌>>=◌}
use d_lmdb.Programs.{Node, IsNode, get_step}
use d_lmdb.Programs.Counter.{number_of, next_of, swap, round}

-- The stored bytes of a key that holds nothing, or a payload without an expiry.
abbrev pub stored_as : Option Bytes → Option Bytes
stored_as payload = Option.map encode_raw payload

pub holds_self : (o : Option Bytes) → holds o o ≡ true
holds_self none = refl
holds_self (some b) = bytes_eq_refl b

module _ {W : Type 0} {L : Lmdb} (n : Node W L) where
  -- what this node stores
  abbrev pub machine_of : W → LmdbStateMachine L
  machine_of w = (n.handle w).state_machine

  abbrev pub stored : W → KeyValues
  stored w = reads (machine_of w)

  -- A successful read of a key that holds no value with an expiry gives the payload, if there is one,
  -- and changes nothing that is stored.
  abbrev pub ReadsPlain : Bytes → Step W (Option Bytes) → Type 0
  ReadsPlain key read =
      (w : W) (payload seen : Option Bytes)
      → stored w key ≡ stored_as payload
      → (read w).1 ≡ ok seen
      → (seen ≡ payload) × (stored (read w).0 ≡ stored w)

module _ {L : Lmdb} (laws : IsLawful L) where
  -- A read of stored bytes that are live gives their payload, and reaps nothing.
  pub get_present :
      (d : DLmdb L) (key raw x : Bytes) {seen : Option Bytes} (now : ℕ)
      → reads d.state_machine key ≡ some raw
      → decode_live_value raw now ≡ ok (present x)
      → (Read.get d key now).1 ≡ ok seen
      → Read.get d key now ≡ (d, ok (some x))
  unfolding Read.get decode_and_reap
  get_present d key raw x now held live h = elim (Result-cases (Scan.get d.state_machine key)) [
    | inl (o, e) ↦
        let found : o ≡ some raw = get-lookup laws d.state_machine key e ∙ held in
        rw (e, fetch_local) (ap (λ o. decode_and_reap d key o now) found ∙ ap (reap d key) live)
    | inr (x, e) ↦ cc (rw (e, fetch_local) at h)
  ]

  get_absent :
      (d : DLmdb L) (key : Bytes) {seen : Option Bytes} (now : ℕ)
      → reads d.state_machine key ≡ none
      → (Read.get d key now).1 ≡ ok seen
      → Read.get d key now ≡ (d, ok none)
  unfolding Read.get decode_and_reap
  get_absent d key now held h = elim (Result-cases (Scan.get d.state_machine key)) [
    | inl (o, e) ↦
        let found : o ≡ none = get-lookup laws d.state_machine key e ∙ held in
        rw (e, fetch_local) (ap (λ o. decode_and_reap d key o now) found)
    | inr (x, e) ↦ cc (rw (e, fetch_local) at h)
  ]

  get_plain :
      (d : DLmdb L) (key : Bytes) (payload seen : Option Bytes) (now : ℕ)
      → reads d.state_machine key ≡ stored_as payload
      → (Read.get d key now).1 ≡ ok seen
      → (Read.get d key now) ≡ (d, ok payload)
  get_plain d key none seen now held h = get_absent d key now held h
  get_plain d key (some x) seen now held h =
      get_present d key (encode_raw x) x now held (live-encode_raw x now) h

module _ {W : Type 0} {L : Lmdb} (laws : IsLawful L) (n : Node W L) where
  pub get_step-ReadsPlain : (is : IsNode n) (key : Bytes) → ReadsPlain n key (get_step n key)
  get_step-ReadsPlain is key w payload seen held h =
      let same = get_plain laws (n.handle w) key payload seen (n.clock w) held h in
      (
        ok-injective _ _ (sym h ∙ ap (λ p. p.1) same),
        ap (λ (d : DLmdb L). reads d.state_machine) (is.handle-keep _ w ∙ ap (λ p. p.0) same),
      )

  module _ (reports : Reports (machine_of n) n.submit) (key : Bytes) where
    -- What a swap by the text after `payload` did, of which it ended without an error: it is taken
    -- exactly if the key still stores that payload.
    abbrev pub Swapped : W → Option Bytes → W → Option Bytes → Type 0
    Swapped met payload w' taken =
        (b : Bool) × (b ≡ holds (stored n met key) (stored_as payload))
        × (taken ≡ (if b then some (next_of (number_of payload)) else none))
        × (stored n w' ≡ (
            if b
            then update (stored n met) key (some (encode_raw (next_of (number_of payload))))
            else stored n met))

    pub swap-Swapped :
        (met : W) (payload : Option Bytes) {taken : Option Bytes}
        → (swap n key payload met).1 ≡ ok taken
        → Swapped met payload (swap n key payload met).0 taken
    unfolding swap ◌>>=◌ db_compare_and_swap
    swap-Swapped met payload h =
        elim (Result-cases
          (send n.submit
            (Request.compare_and_swap key (stored_as payload)
              (encode_raw (next_of (number_of payload))))
            met).1) [
              | inr (x, e) ↦ cc (rw (e, after) at h)
              | inl (b, e) ↦
                  let (told, left) =
                    sent_swap laws (machine_of n) n.submit reports key (stored_as payload)
                      (encode_raw (next_of (number_of payload))) met b e in
                  rw (e, after) (b, told, sym (ok-injective _ _ (rw (e, after) at h)), left)
            ]

    pub round-swap :
        (read : Step W (Option Bytes)) (others : W → W) (w : W) (payload : Option Bytes)
        → (read w).1 ≡ ok payload
        → round n key read others w ≡ swap n key payload (others (read w).0)
    unfolding round ◌>>=◌
    round-swap read others w payload e = rw (e, after) refl
