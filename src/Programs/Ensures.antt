-- ===== src/Programs/Ensures.antt =====
-- Postconditions of programs that neither panic nor run on, and the steps of the node under them.
use d_lmdb.Base.{
  ℕ, ◌≤◌, ◌≡◌, ◌≢◌, refl, sym, ap, subst, ◌∙◌, Bool, true, false, Option, none, some, Result, ok,
  err, map_ok, Result-cases, inl, inr, ok-injective, arith,
}
use d_lmdb.Bytes.{Bytes}
use d_lmdb.Lmdb.{Lmdb, IsLawful}
use d_lmdb.Machine.Apply.Spec.{reads}
use d_lmdb.Db.Types.{Error}
use d_lmdb.Db.Read
use d_lmdb.Db.Read.{DLmdb, fetch_local}
use d_lmdb.Db.Read.Reap.{visible, get_shows}
use d_lmdb.Host.{Step}
use d_lmdb.Programs.{
  Node, IsNode, get_step, exists_step, Outcome, done, failed, panicked, running, Prog, outcome_of,
  following, ◌>>=◌, attempted, asserted,
}
use d_lmdb.Programs.Counter.Round.{stored}

-- The program is done, with this, or it failed.
abbrev pub Ensures : {W A : Type 0} → (W → A → Type 0) → W × Outcome A → Type 0
Ensures P (w, done a) = P w a
Ensures P (w, failed e) = Unit
Ensures P (w, panicked) = ⊥
Ensures P (w, running) = ⊥

abbrev pub Anything : {W A : Type 0} → W → A → Type 0
Anything w a = Unit

module _ {W A : Type 0} where
  following-Ensures :
      {B : Type 0} (P : W → A → Type 0) (Q : W → B → Type 0) (p : W × Outcome A)
      (next : A → Prog W B)
      → Ensures P p
      → ((a : A) (w : W) → P w a → Ensures Q (next a w))
      → Ensures Q (following p next)
  following-Ensures P Q (w, done a) next h k = k a w h
  following-Ensures P Q (w, failed e) next h k = tt
  following-Ensures P Q (w, panicked) next h k = h
  following-Ensures P Q (w, running) next h k = h

  pub bind-Ensures :
      {B : Type 0} (P : W → A → Type 0) (Q : W → B → Type 0) (m : Prog W A) (next : A → Prog W B)
      (w : W)
      → Ensures P (m w)
      → ((a : A) (w : W) → P w a → Ensures Q (next a w))
      → Ensures Q ((m >>= next) w)
  unfolding ◌>>=◌
  bind-Ensures P Q m next w h k = following-Ensures P Q (m w) next h k

  outcome-Ensures :
      (P : W → A → Type 0) (p : W × Result A Error)
      → ((a : A) → p.1 ≡ ok a → P p.0 a)
      → Ensures P (p.0, outcome_of p.1)
  outcome-Ensures P (w, ok a) h = h a refl
  outcome-Ensures P (w, err e) h = tt

  pub attempted-Ensures :
      (P : W → A → Type 0) (m : Step W A) (w : W)
      → ((a : A) → (m w).1 ≡ ok a → P (m w).0 a)
      → Ensures P (attempted m w)
  attempted-Ensures P m w h = outcome-Ensures P (m w) h

  pub Ensures-ends :
      (P : W → A → Type 0) (p : W × Outcome A) → Ensures P p → (p.1 ≢ panicked) × (p.1 ≢ running)
  Ensures-ends P (w, done a) h = ((λ e. cc), λ e. cc)
  Ensures-ends P (w, failed x) h = ((λ e. cc), λ e. cc)
  Ensures-ends P (w, panicked) h = absurd h
  Ensures-ends P (w, running) h = absurd h

  pub Ensures-done :
      (P : W → A → Type 0) (p : W × Outcome A) (a : A) → Ensures P p → p.1 ≡ done a → P p.0 a
  Ensures-done P (w, done x) a h e = let same : x ≡ a = cc in subst (P w) same h
  Ensures-done P (w, failed x) a h e = cc
  Ensures-done P (w, panicked) a h e = absurd h
  Ensures-done P (w, running) a h e = absurd h

module _ {W B : Type 0} (Q : W → B → Type 0) where
  -- a step that leaves `P` where it succeeds
  pub bind_step :
      {A : Type 0} (P : W → A → Type 0) (m : Step W A) (next : A → Prog W B) (w : W)
      → ((a : A) → (m w).1 ≡ ok a → P (m w).0 a)
      → ((a : A) (w : W) → P w a → Ensures Q (next a w))
      → Ensures Q ((attempted m >>= next) w)
  bind_step P m next w h k = bind-Ensures P Q (attempted m) next w (attempted-Ensures P m w h) k

  -- any step at all, and nothing known of it
  pub bind_attempted :
      {A : Type 0} (m : Step W A) (next : A → Prog W B) (w : W)
      → ((a : A) (w : W) → Ensures Q (next a w))
      → Ensures Q ((attempted m >>= next) w)
  bind_attempted m next w k = bind_step Anything m next w (λ a h. tt) (λ a w h. k a w)

  pub bind_asserted :
      (b : Bool) (next : Unit {0} → Prog W B) (w : W)
      → b ≡ true
      → ((u : Unit {0}) (w : W) → Ensures Q (next u w))
      → Ensures Q ((asserted b >>= next) w)
  unfolding ◌>>=◌
  bind_asserted true next w h k = k tt w
  bind_asserted false next w h k = cc

module _ {W : Type 0} {L : Lmdb} (n : Node W L) where
  -- what a key shows from now on
  abbrev pub Shows : Bytes → Option Bytes → W → Type 0
  Shows k o w = (t : ℕ) → n.clock w ≤ t → visible (stored n w) t k ≡ o

abbrev pub is_some : Option Bytes → Bool
is_some (some v) = true
is_some none = false

module _ {W : Type 0} {L : Lmdb} (laws : IsLawful L) (n : Node W L) (is : IsNode n) where
  pub get_step-Shows :
      (j k : Bytes) (o : Option Bytes) (w : W) {v : Option Bytes}
      → Shows n k o w
      → (get_step n j w).1 ≡ ok v
      → Shows n k o (get_step n j w).0
  get_step-Shows j k o w shows h t le =
      let (seen, same) = get_shows laws (n.handle w) j (n.clock w) h in
      let before = is.clock-keep (Read.get (n.handle w) j (n.clock w)).0 w in
      ap (λ (d : DLmdb L). visible (reads d.state_machine) t k) (is.handle-keep _ w)
      ∙ same t k (omega arith)
      ∙ shows t (omega arith)

  pub exists_step-Shows :
      (k : Bytes) (o : Option Bytes) (w : W) {b : Bool}
      → Shows n k o w
      → (exists_step n k w).1 ≡ ok b
      → b ≡ is_some o
  unfolding Read.exists Read.get
  exists_step-Shows k o w shows h = elim (Result-cases (Read.get (n.handle w) k (n.clock w)).1) [
    | inl (v, e) ↦
        let (seen, same) = get_shows laws (n.handle w) k (n.clock w) e in
        sym (ok-injective _ _ (rw (e, map_ok) at h))
        ∙ ap is_some (seen ∙ shows (n.clock w) (omega arith))
    | inr (x, e) ↦ cc (rw (e, map_ok) at h)
  ]
