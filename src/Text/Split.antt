-- ===== src/Text/Split.antt =====
-- `rsplit_once` at the last separator of a text.
use d_lmdb.Base.{ℕ, ◌≡◌, ◌≢◌, refl, some, none, [], ◌∷◌, ◌++◌, All, arith}
use d_lmdb.Bytes.{Bytes}
use d_lmdb.Text.{rsplit_once}

pub rsplit_once-none : (c : ℕ) (s : Bytes) → All (λ x. x ≢ c) s → rsplit_once c s ≡ none
unfolding rsplit_once
rsplit_once-none c [] h = refl
rsplit_once-none c (x ∷ s) h = ground (arith, rsplit_once-none c s h.1, h.0)

pub rsplit_once-append :
    (c : ℕ) (s t : Bytes) → All (λ x. x ≢ c) t → rsplit_once c (s ++ (c ∷ t)) ≡ some (s, t)
unfolding rsplit_once
rsplit_once-append c [] t h = ground (arith, rsplit_once-none c t h)
rsplit_once-append c (x ∷ s) t h = ground (arith, rsplit_once-append c s t h)
