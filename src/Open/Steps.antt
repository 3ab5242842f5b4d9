-- ===== src/Open/Steps.antt =====
-- Steps that leave the locks alone, and what steps give (the `?` chains of d-lmdb/src/db.rs and d-lmdb/src/lock.rs).
use d_lmdb.Base.{◌≡◌, subst, ◌∙◌, Result, ok, err, ok-injective}
use d_lmdb.Bytes.{Bytes}
use d_lmdb.Lmdb.{Lmdb}
use d_lmdb.Db.Types.{Error}
use d_lmdb.Host.{Host, IsHost, Step, after, ◌>>=◌, lift, converted, cleaned, dropping}

module _ {W : Type 0} {L : Lmdb} (host : Host W L) (is : IsHost host) where
  -- the holders of all locks are the same
  abbrev pub Same : W → W → Type 0
  Same w w' = (q : Bytes) → is.holder w' q ≡ is.holder w q

  abbrev pub Keeps : {A : Type 0} → Step W A → Type 0
  Keeps m = (w : W) → Same w (m w).0

  after-Same :
      {A B : Type 0} (w : W) (p : W × Result A Error) (next : A → Step W B)
      → Same w p.0
      → ((a : A) → Keeps (next a))
      → Same w (after p next).0
  after-Same w (w', ok a) next s k q = k a w' q ∙ s q
  after-Same w (w', err e) next s k q = s q

  cleaned-Same :
      {A : Type 0} (w : W) (cleanup : W → W) (p : W × Result A Error)
      → Same w p.0
      → ((v : W) → Same v (cleanup v))
      → Same w (cleaned cleanup p).0
  cleaned-Same w cleanup (w', ok a) s k q = s q
  cleaned-Same w cleanup (w', err e) s k q = k w' q ∙ s q

  -- A sequence of steps that keep the holders keeps them.
  pub bind-Keeps :
      {A B : Type 0} (m : Step W A) (next : A → Step W B)
      → Keeps m
      → ((a : A) → Keeps (next a))
      → Keeps (m >>= next)
  unfolding ◌>>=◌
  bind-Keeps m next k l w = after-Same w (m w) next (k w) l

  pub dropping-Keeps :
      {A : Type 0} (cleanup : W → W) (m : Step W A)
      → ((v : W) → Same v (cleanup v))
      → Keeps m
      → Keeps (dropping cleanup m)
  unfolding dropping
  dropping-Keeps cleanup m k l w = cleaned-Same w cleanup (m w) (l w) k

  pub converted-Keeps :
      {A E : Type 0} (f : E → Error) (m : W → W × Result A E)
      → ((w : W) → Same w (m w).0)
      → Keeps (converted f m)
  unfolding converted
  converted-Keeps f m k w = k w

module _ {W : Type 0} where
  -- what a step gives where it succeeds
  abbrev pub Gives : {A : Type 0} → (A → Type 0) → Step W A → Type 0
  Gives {A} P m = (w : W) (a : A) → (m w).1 ≡ ok a → P a

  after-ok :
      {A B : Type 0} (P : B → Type 0) (p : W × Result A Error) (next : A → Step W B)
      → ((a : A) → Gives P (next a))
      → (b : B) → (after p next).1 ≡ ok b
      → P b
  after-ok P (w, ok a) next g b h = g a w b h
  after-ok P (w, err e) next g b h = cc

  pub bind-Gives :
      {A B : Type 0} (P : B → Type 0) (m : Step W A) (next : A → Step W B)
      → ((a : A) → Gives P (next a))
      → Gives P (m >>= next)
  unfolding ◌>>=◌
  bind-Gives P m next g w b h = after-ok P (m w) next g b h

  cleaned-ok :
      {A : Type 0} (cleanup : W → W) (p : W × Result A Error) {a : A}
      → (cleaned cleanup p).1 ≡ ok a
      → p.1 ≡ ok a
  cleaned-ok cleanup (w, ok a) h = h
  cleaned-ok cleanup (w, err e) h = h

  pub dropping-Gives :
      {A : Type 0} (P : A → Type 0) (cleanup : W → W) (m : Step W A)
      → Gives P m
      → Gives P (dropping cleanup m)
  unfolding dropping
  dropping-Gives P cleanup m g w a h = g w a (cleaned-ok cleanup (m w) h)

  pub lift-Gives : {A : Type 0} (P : A → Type 0) (a : A) → P a → Gives P (lift (ok a))
  lift-Gives P a p w b h = subst P (ok-injective _ _ h) p
