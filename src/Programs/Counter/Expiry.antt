-- ===== src/Programs/Counter/Expiry.antt =====
-- The counter's loop over a value that was put with a time to live.
use d_lmdb.Base.{
  ℕ, zero, suc, ◌<◌, ◌^◌, ◌≡◌, ◌≢◌, sym, ap, ◌∙◌, Option, none, some, Result, ok, Bool, false,
  if◌then◌else◌, Result-cases, inl, inr, arith,
}
use d_lmdb.Bytes.{Bytes}
use d_lmdb.Lmdb.{Lmdb, IsLawful}
use d_lmdb.Wire.{encode_raw, encode_ttl}
use d_lmdb.Machine.Apply.Spec.{update, holds, reads}
use d_lmdb.Db.Types.{Error}
use d_lmdb.Db.Decode.{decode_live_value, present}
use d_lmdb.Db.Decode.Expiry.{live-encode_ttl}
use d_lmdb.Db.Read.{DLmdb}
use d_lmdb.Db.Write.Swap.{Reports}
use d_lmdb.Db.Write.Conditional.{holds_ttl}
use d_lmdb.Host.{after, ◌>>=◌}
use d_lmdb.Programs.{Node, IsNode, get_step}
use d_lmdb.Programs.Counter.{number_of, next_of, round, continue, increment}
use d_lmdb.Programs.Counter.Round.{
  stored_as, machine_of, stored, get_present, swap-Swapped, round-swap,
}

module _ {W : Type 0} {L : Lmdb} (laws : IsLawful L) (n : Node W L) (is : IsNode n)
    (reports : Reports (machine_of n) n.submit) (key x : Bytes) (ts : ℕ) (fits : ts < 2 ^ 64) where
  abbrev HoldsTtl : W → Type 0
  HoldsTtl w = stored n w key ≡ some (encode_ttl x (some ts))

  live_read :
      (w : W) {seen : Option Bytes}
      → HoldsTtl w
      → n.clock w < ts
      → (get_step n key w).1 ≡ ok seen
      → ((get_step n key w).1 ≡ ok (some x)) × HoldsTtl (get_step n key w).0
  live_read w held live h =
      let now : decode_live_value (encode_ttl x (some ts)) (n.clock w) ≡ ok (present x) =
        live-encode_ttl x ts (n.clock w) fits ∙ ground arith in
      let same = get_present laws (n.handle w) key _ x (n.clock w) held now h in
      (
        ap (λ p. p.1) same,
        ap (λ (d : DLmdb L). reads d.state_machine key) (is.handle-keep _ w ∙ ap (λ p. p.0) same)
            ∙ held,
      )

  lost_round :
      (others : W → W) (w : W) {taken : Option Bytes}
      → ((v : W) → HoldsTtl v → HoldsTtl (others v))
      → HoldsTtl w
      → n.clock w < ts
      → (round n key (get_step n key) others w).1 ≡ ok taken
      → ((round n key (get_step n key) others w).1 ≡ ok none)
        × HoldsTtl (round n key (get_step n key) others w).0
  unfolding round ◌>>=◌
  lost_round others w keeps held live h = elim (Result-cases (get_step n key w).1) [
    | inr (e, q) ↦ cc (rw (q, after) at h)
    | inl (seen, q) ↦
        let (got, unread) = live_read w held live q in
        let to_swap = round-swap laws n reports key (get_step n key) others w (some x) got in
        let (b, told, answer, left) =
          swap-Swapped laws n reports key (others (get_step n key w).0) (some x)
            (sym (ap (λ p. p.1) to_swap) ∙ h) in
        let met = keeps (get_step n key w).0 unread in
        let lost : b ≡ false =
          told ∙ ap (λ o. holds o (stored_as (some x))) met ∙ holds_ttl x x ts in
        (
          h
              ∙ ap ok (
                  answer
                  ∙ ap (λ (c : Bool). if c then some (next_of (number_of (some x))) else none)
                      lost),
          ap (λ (p : W × Result (Option Bytes) Error). stored n p.0 key) to_swap
              ∙ ap (λ f. f key) left
              ∙ ap
                  (λ (c : Bool).
                    (if c
                        then update (stored n (others (get_step n key w).0)) key
                            (some (encode_raw (next_of (number_of (some x)))))
                        else stored n (others (get_step n key w).0))
                      key)
                  lost
              ∙ met,
        )
  ]

  -- Over a value with an expiry of 64 bits, as long as it is live and others leave it there, and where
  -- the client reports what a swap did, the loop never ends by a swap, however many rounds it is given.
  pub increment_livelocks :
      (others : ℕ → W → W) (fuel : ℕ) (w : W) {w' : W} {next : Bytes}
      → ((j : ℕ) (v : W) → HoldsTtl v → HoldsTtl (others j v))
      → ((v : W) → n.clock v < ts)
      → HoldsTtl w
      → increment n key (get_step n key) others fuel w ≢ some (w', ok next)
  unfolding increment
  increment_livelocks others zero w keeps live held h = cc
  increment_livelocks others (suc fuel) w keeps live held h =
      elim (Result-cases (round n key (get_step n key) (others fuel) w).1) [
        | inr (x, e) ↦ cc (rw (e, continue) at h)
        | inl (taken, e) ↦
            let (lost, kept) = lost_round (others fuel) w (keeps fuel) held (live w) e in
            increment_livelocks others fuel _ keeps live kept (rw (lost, continue) at h)
      ]
