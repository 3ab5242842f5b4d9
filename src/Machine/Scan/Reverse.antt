-- ===== src/Machine/Scan/Reverse.antt =====
-- The reverse scan of d-lmdb/src/state_machine.rs.
use mathlib.Core.List.{reverse, append_assoc, append-nil}
use d_lmdb.Base.{
  ℕ, zero, suc, ◌≤◌, ◌<◌, ◌-◌, ◌≡◌, refl, sym, ap, subst, ◌∙◌, Bool-cases, inl, inr, Option, some,
  none, List, [], ◌∷◌, ◌++◌, ok, err, arith, leb, length, length-append, take, last_of,
  reverse-last_of, >>=-eq-ok, map_err-eq-ok, ok-injective,
}
use d_lmdb.Bytes.{Bytes}
use d_lmdb.Store.{Entries, included, excluded, within}
use d_lmdb.Lmdb.{Lmdb, kv, Reads, IsLawful}
use d_lmdb.Machine.Types.{ScanResult, LmdbStateMachine, lmdb_err}
use d_lmdb.Machine.Scan.{Filter, filtered, slide, cap_of, Items, rev_loop, scan_range_rev}
use d_lmdb.Machine.Scan.Live.{kept}
use d_lmdb.Machine.Scan.Ranges.{stored}

last_of-short {ℓ} : {A : Type ℓ} (n : ℕ) (xs : List A) → length xs ≤ n → last_of n xs ≡ xs
last_of-short n xs h = let e : length xs - n ≡ 0 = omega arith in rw e

last_of-cons {ℓ} :
    {A : Type ℓ} (n : ℕ) (x : A) (xs : List A) → n ≤ length xs → last_of n (x ∷ xs) ≡ last_of n xs
last_of-cons n x xs h = let e : suc (length xs) - n ≡ suc (length xs - n) = omega arith in rw e

-- The window slides over one entry as the last entries of a list do.
slide-last_of :
    (cap : ℕ) (k p : Bytes) (window rest : Entries)
    → 0 < cap
    → length window ≤ cap
    → last_of cap (slide cap k (some p) window ++ rest) ≡ last_of cap (window ++ ((k, p) ∷ rest))
slide-last_of cap k p [] rest h l = elim (Bool-cases (leb cap 0)) [ inl e ↦ rw e | inr e ↦ rw e ]
slide-last_of cap k p (x ∷ window) rest h l = elim (Bool-cases (leb cap (suc (length window)))) [
  | inl e ↦
      rw (e, append_assoc window ((k, p) ∷ []) rest)
        (sym (
          last_of-cons cap x (window ++ ((k, p) ∷ rest))
            (ground (arith, length-append window ((k, p) ∷ rest)))))
  | inr e ↦ rw (e, append_assoc window ((k, p) ∷ []) rest)
]

length-slide :
    (cap : ℕ) (k : Bytes) (o : Option Bytes) (window : Entries)
    → 0 < cap
    → length window ≤ cap
    → length (slide cap k o window) ≤ cap
length-slide cap k none window h l = l
length-slide cap k (some p) [] h l = ground arith
length-slide cap k (some p) (x ∷ window) h l = ground (arith, length-append window ((k, p) ∷ []))

module _ (L : Lmdb) (cap : ℕ) (filter : Filter) (positive : 0 < cap) where
  slid :
      (k : Bytes) (o : Option Bytes) (window rest : Entries)
      → length window ≤ cap
      → last_of cap (slide cap k o window ++ rest)
        ≡ last_of cap (window ++ (elim o [ some payload ↦ (k, payload) ∷ rest | none ↦ rest ]))
  slid k none window rest l = refl
  slid k (some p) window rest l = slide-last_of cap k p window rest positive l

  slide-kept :
      (k v : Bytes) (f : Filter) (window m : Entries)
      → length window ≤ cap
      → last_of cap (slide cap k (filtered f v) window ++ kept f m)
        ≡ last_of cap (window ++ kept f ((k, v) ∷ m))
  unfolding kept
  slide-kept k v none window m l = slid k (some v) window (kept none m) l
  slide-kept k v (some f) window m l = slid k (f v) window (kept (some f) m) l

  rev_loop_exact :
      (items : Items L) (m window : Entries) {out : Entries}
      → Reads items m
      → length window ≤ cap
      → rev_loop L cap filter items window ≡ ok out
      → out ≡ last_of cap (window ++ kept filter m)
  unfolding rev_loop kept
  rev_loop_exact [] [] window r l h =
      sym (ok-injective _ _ h) ∙ rw append-nil (sym (last_of-short cap window l))
  rev_loop_exact [] (x ∷ m) window r l h = absurd r
  rev_loop_exact (err e ∷ items) m window r l h = cc
  rev_loop_exact (ok e ∷ items) [] window r l h = absurd r
  rev_loop_exact (ok (k, v) ∷ items) (x ∷ m) window {out} r l h =
      subst (λ y. out ≡ last_of cap (window ++ kept filter (y ∷ m))) r.0
        (rev_loop_exact items m (slide cap k (filtered filter v) window) r.1
            (length-slide cap k (filtered filter v) window positive l) h
          ∙ slide-kept k v filter window m l)

-- With a limit of 0 the window still holds the entry that it has just taken in.
slide_zero :
    (k : Bytes) (o : Option Bytes) (window : Entries)
    → length window ≤ 1
    → slide 0 k o window ≡ slide 1 k o window
slide_zero k none window l = refl
slide_zero k (some p) [] l = refl
slide_zero k (some p) (x ∷ []) l = refl
slide_zero k (some p) (x ∷ y ∷ window) l = absurd (omega arith)

rev_loop_zero :
    (L : Lmdb) (filter : Filter) (items : Items L) (window : Entries)
    → length window ≤ 1
    → rev_loop L 0 filter items window ≡ rev_loop L 1 filter items window
unfolding rev_loop
rev_loop_zero L filter [] window l = refl
rev_loop_zero L filter (err e ∷ items) window l = refl
rev_loop_zero L filter (ok (k, v) ∷ items) window l =
    rw (slide_zero k (filtered filter v) window l) (
      rev_loop_zero L filter items (slide 1 k (filtered filter v) window)
        (length-slide 1 k (filtered filter v) window (omega arith) l))

-- the window's size: 1 at least
abbrev pub at_least_one : ℕ → ℕ
at_least_one zero = 1
at_least_one (suc n) = suc n

rev_loop_last :
    (L : Lmdb) (cap : ℕ) (filter : Filter) (items : Items L) (m : Entries) {out : Entries}
    → Reads items m
    → rev_loop L cap filter items [] ≡ ok out
    → out ≡ last_of (at_least_one cap) (kept filter m)
rev_loop_last L zero filter items m r h =
    rev_loop_exact L 1 filter (omega arith) items m [] r (omega arith)
      (sym (rev_loop_zero L filter items [] (omega arith)) ∙ h)
rev_loop_last L (suc n) filter items m r h =
    rev_loop_exact L (suc n) filter (omega arith) items m [] r (omega arith) h

-- A successful reverse scan from a non-empty `start` returns, in descending order of their keys,
-- the last live entries of the range from `start` to before `end`: `limit` of them at most, but
-- one where the limit is 0 and the range has a live entry.
pub scan_range_rev_exact :
    {L : Lmdb} (laws : IsLawful L) (m : LmdbStateMachine L) (b : ℕ) (start end : Bytes)
    (limit : Option ℕ) (f : Filter) {r : ScanResult}
    → scan_range_rev m (b ∷ start) end limit f ≡ ok r
    → r.entries
      ≡ take
          (at_least_one (cap_of limit))
          (reverse (kept f (within (included (b ∷ start)) (excluded end) (stored m))))
unfolding scan_range_rev
scan_range_rev_exact {L} laws m b start end limit f {r} h =
    let lo = included (b ∷ start) in
    let hi = excluded end in
    let (t, began, h1) = >>=-eq-ok (lmdb_err L (L.read_txn m.env)) _ h in
    let (items, ranged, h2) = >>=-eq-ok (lmdb_err L (L.range t kv lo hi)) _ h1 in
    let (window, scanned, h3) = >>=-eq-ok (rev_loop L (cap_of limit) f items []) _ h2 in
    let seen : L.view t kv ≡ stored m =
      ap (λ v. v kv) (laws.read_view m.env (map_err-eq-ok _ _ began)) in
    let exact =
      rev_loop_last L (cap_of limit) f items _
        (laws.range_reads t kv lo hi (map_err-eq-ok _ _ ranged)) scanned in
    ap (λ s. s.entries) (sym (ok-injective _ _ h3))
    ∙ ap reverse
        (exact ∙ ap (λ v. last_of (at_least_one (cap_of limit)) (kept f (within lo hi v))) seen)
    ∙ reverse-last_of (at_least_one (cap_of limit)) (kept f (within lo hi (stored m)))
