-- ===== src/Programs/Counter/Loop.antt =====
-- The counter's loop: that it ends, what it leaves, and when it never ends.
use d_lmdb.Base.{
  ℕ, zero, suc, ◌+◌, ◌%◌, ◌^◌, ◌<◌, ◌≡◌, ◌≢◌, refl, sym, ap, ◌∙◌, subst, Bool, true, false, Option,
  none, some, Result, ok, err, if◌then◌else◌, Result-cases, inl, inr, arith,
}
use native.Mathlib.Decide.{dec_lt}
use mathlib.Core.Option.{some-injective}
use d_lmdb.Bytes.{Bytes}
use d_lmdb.Bytes.Order.{eq_of_bytes_eq}
use d_lmdb.Text.Number.{parse_u64, checked_value, parse_u64-decimal}
use d_lmdb.Lmdb.{Lmdb, IsLawful}
use d_lmdb.Wire.{encode_raw}
use d_lmdb.Machine.Apply.Spec.{update, holds}
use d_lmdb.Db.Types.{Error}
use d_lmdb.Db.Write.Swap.{Reports}
use d_lmdb.Host.{Step, after, ◌>>=◌}
use d_lmdb.Programs.{Node}
use d_lmdb.Programs.Counter.{number_of, next_of, swap, round, continue, increment}
use d_lmdb.Programs.Counter.Round.{
  stored_as, holds_self, machine_of, stored, ReadsPlain, Swapped, swap-Swapped, round-swap,
}

module _ {W : Type 0} {L : Lmdb} (n : Node W L) (key : Bytes) where
  -- the key holds no value with an expiry
  abbrev pub HoldsPlain : W → Type 0
  HoldsPlain w = (payload : Option Bytes) × (stored n w key ≡ stored_as payload)

not_taken : (b : Bool) (t : Bytes) → none ≡ (if b then some t else none) → b ≡ false
not_taken false t h = refl
not_taken true t h = cc

pub was_taken :
    (b : Bool) (t next : Bytes) → some next ≡ (if b then some t else none) → (b ≡ true) × (next ≡ t)
was_taken true t next h = (refl, cc)
was_taken false t next h = cc

eq_of_holds : (a b : Option Bytes) → holds a b ≡ true → a ≡ b
eq_of_holds none none h = refl
eq_of_holds none (some y) h = cc
eq_of_holds (some x) none h = cc
eq_of_holds (some x) (some y) h = ap some (eq_of_bytes_eq x y h)

-- the number after a text, where a text that is no number of 64 bits counts as none
abbrev pub counted : Option ℕ → ℕ
counted (some m) = (m + 1) % 2 ^ 64
counted none = 1

next_of-counted : (o : Option ℕ) → number_of (some (next_of o)) ≡ some (counted o)
next_of-counted (some m) = parse_u64-decimal ((m + 1) % 2 ^ 64) (omega arith)
next_of-counted none = unfold parse_u64 checked_value in refl

module _ {W : Type 0} {L : Lmdb} (n : Node W L) (key : Bytes) where
  -- A world that a round meets just before its swap, from the start of the loop with so many rounds:
  -- nothing stored was changed in between but by the others, who came once in each round.
  pub data Meets (others : ℕ → W → W) : ℕ → W → W → Type 0 where
    first : (i : ℕ) (w v : W) → stored n v ≡ stored n w → Meets others (suc i) w (others i v)
    again :
        (i : ℕ) (w v w' x : W)
        → stored n v ≡ stored n w
        → stored n w' ≡ stored n (others i v)
        → Meets others i w' x
        → Meets others (suc i) w x

  -- the world just before the swap, what the key held there, and what the swap made of it
  abbrev pub Counted : (ℕ → W → W) → ℕ → W → W → Bytes → Type 0
  Counted others fuel w w' next =
      (v : W) × Meets others fuel w v
      × (payload : Option Bytes) × (stored n v key ≡ stored_as payload)
      × (number_of (some next) ≡ some (counted (number_of payload)))
      × (stored n w' ≡ update (stored n v) key (some (encode_raw next)))

module _ {W : Type 0} {L : Lmdb} (laws : IsLawful L) (n : Node W L)
    (reports : Reports (machine_of n) n.submit) (key : Bytes) (read : Step W (Option Bytes))
    (plain : ReadsPlain n key read) where
  -- A round that ended without an error has read the payload, and its swap met what others left.
  pub round-Swapped :
      (others : W → W) (w : W) (payload : Option Bytes) {taken : Option Bytes}
      → stored n w key ≡ stored_as payload
      → (round n key read others w).1 ≡ ok taken
      → (stored n (read w).0 ≡ stored n w)
        × Swapped laws n reports key (others (read w).0) payload (round n key read others w).0 taken
  unfolding round ◌>>=◌
  round-Swapped others w payload {taken} held h = elim (Result-cases (read w).1) [
    | inr (x, e) ↦ cc (rw (e, after) at h)
    | inl (seen, e) ↦
        let (same, unread) = plain w payload seen held e in
        let to_swap : round n key read others w ≡ swap n key payload (others (read w).0) =
          round-swap laws n reports key read others w payload (e ∙ ap ok same) in
        (
          unread,
          subst
              (λ (p : W × Result (Option Bytes) Error).
                Swapped laws n reports key (others (read w).0) payload p.0 taken)
              (sym to_swap)
              (swap-Swapped laws n reports key (others (read w).0) payload
                (sym (ap (λ p. p.1) to_swap) ∙ h)),
        )
  ]

  module _ (others : ℕ → W → W) where
    -- a lost round leaves what the others left
    lost-stored :
        (i : ℕ) (w : W)
        → HoldsPlain n key w
        → (round n key read (others i) w).1 ≡ ok none
        → (stored n (read w).0 ≡ stored n w)
          × (stored n (round n key read (others i) w).0 ≡ stored n (others i (read w).0))
    lost-stored i w (payload, held) h =
        let (unread, (b, told, answer, left)) = round-Swapped (others i) w payload held h in
        (
          unread,
          left
              ∙ ap
                  (λ (x : Bool).
                    if x
                    then update (stored n (others i (read w).0)) key
                        (some (encode_raw (next_of (number_of payload))))
                    else stored n (others i (read w).0))
                  (not_taken b _ answer),
        )

    lost-HoldsPlain :
        (i : ℕ) (w : W)
        → ((v : W) → HoldsPlain n key v → HoldsPlain n key (others i v))
        → HoldsPlain n key w
        → (round n key read (others i) w).1 ≡ ok none
        → HoldsPlain n key (round n key read (others i) w).0
    lost-HoldsPlain i w keeps (payload, held) h =
        let (unread, left) = lost-stored i w (payload, held) h in
        let (met, holds_met) = keeps (read w).0 (payload, ap (λ f. f key) unread ∙ held) in
        (met, ap (λ f. f key) left ∙ holds_met)

    -- Where others leave the key alone between the read and the swap, the swap is taken.
    pub quiet_round :
        (i : ℕ) (w : W)
        → ((v : W) → stored n (others i v) key ≡ stored n v key)
        → HoldsPlain n key w
        → (round n key read (others i) w).1 ≢ ok none
    quiet_round i w quiet (payload, held) h =
        let (unread, (b, told, answer, left)) = round-Swapped (others i) w payload held h in
        let taken : b ≡ true =
          told
          ∙ ap (λ o. holds o (stored_as payload)) (quiet (read w).0 ∙ ap (λ f. f key) unread ∙ held)
          ∙ holds_self (stored_as payload) in
        cc (rw taken at answer)

    -- If others leave the key alone in one of the rounds between the read and the swap, and never put
    -- a value with an expiry there, the loop ends within its rounds.
    pub increment_ends :
        (fuel i : ℕ) (w : W)
        → ((j : ℕ) (v : W) → HoldsPlain n key v → HoldsPlain n key (others j v))
        → ((v : W) → stored n (others i v) key ≡ stored n v key)
        → HoldsPlain n key w
        → i < fuel
        → (p : W × Result Bytes Error) × (increment n key read others fuel w ≡ some p)
    unfolding increment
    increment_ends zero i w keeps quiet held below = elim below [ ]
    increment_ends (suc fuel) i w keeps quiet held below =
        elim (Result-cases (round n key read (others fuel) w).1) [
          | inr (x, e) ↦ rw (e, continue) (_, refl)
          | inl (some next, e) ↦ rw (e, continue) (_, refl)
          | inl (none, e) ↦ elim (dec_lt i fuel) [
            | yes earlier ↦
                rw (e, continue)
                  (increment_ends fuel i _ keeps quiet (lost-HoldsPlain fuel w (keeps fuel) held e)
                    earlier)
            | no now ↦
                let this : i ≡ fuel = omega arith in
                absurd (
                  quiet_round fuel w
                    (subst (λ j. (v : W) → stored n (others j v) key ≡ stored n v key) this quiet)
                    held e)
          ]
        ]

    taken_round :
        (i : ℕ) (w : W) (next : Bytes)
        → HoldsPlain n key w
        → (round n key read (others i) w).1 ≡ ok (some next)
        → Counted n key others (suc i) w (round n key read (others i) w).0 next
    taken_round i w next (payload, held) h =
        let (unread, (b, told, answer, left)) = round-Swapped (others i) w payload held h in
        let (taken, same) = was_taken b _ next answer in
        (
          others i (read w).0,
          Meets.first i w (read w).0 unread,
          payload,
          eq_of_holds _ _ (sym told ∙ taken),
          ap (λ t. number_of (some t)) same ∙ next_of-counted (number_of payload),
          left
              ∙ ap
                  (λ (x : Bool).
                    if x
                    then update (stored n (others i (read w).0)) key
                        (some (encode_raw (next_of (number_of payload))))
                    else stored n (others i (read w).0))
                  taken
              ∙ ap (λ t. update (stored n (others i (read w).0)) key (some (encode_raw t)))
                  (sym same),
        )

    abbrev Ended : ℕ → W → W × Result Bytes Error → Type 0
    Ended fuel w (w', ok next) = Counted n key others fuel w w' next
    Ended fuel w (w', err e) = Unit

    -- Over a key that holds no value with an expiry, where others never put one there, reads give what
    -- is stored, and the client reports what a swap did: a loop that ended by a swap has counted once.
    -- From its start until just before that swap only the others changed what is stored; the key held
    -- a payload or nothing then; the new text is the number after that payload, wrapped at 64 bits as
    -- in a release build, or 1 if there was no number of 64 bits; and the swap put it under the key and
    -- changed nothing else.
    pub increment_counts :
        (fuel : ℕ) (w : W) {w' : W} {next : Bytes}
        → ((j : ℕ) (v : W) → HoldsPlain n key v → HoldsPlain n key (others j v))
        → HoldsPlain n key w
        → increment n key read others fuel w ≡ some (w', ok next)
        → Counted n key others fuel w w' next
    unfolding increment
    increment_counts zero w keeps held h = cc
    increment_counts (suc fuel) w keeps held h =
        elim (Result-cases (round n key read (others fuel) w).1) [
          | inr (x, e) ↦ cc (rw (e, continue) at h)
          | inl (some t, e) ↦
              subst (Ended (suc fuel) w) (some-injective _ _ (rw (e, continue) at h))
                (taken_round fuel w t held e)
          | inl (none, e) ↦
              let (unread, left) = lost-stored fuel w held e in
              let (v, meets, payload, holds_then, number, left_then) =
                increment_counts fuel _ keeps (lost-HoldsPlain fuel w (keeps fuel) held e)
                  (rw (e, continue) at h) in
              (
                v,
                Meets.again fuel w (read w).0 _ v unread left meets,
                payload,
                holds_then,
                number,
                left_then,
              )
        ]
