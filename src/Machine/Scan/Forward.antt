-- ===== src/Machine/Scan/Forward.antt =====
-- The loop of the forward scans of d-lmdb/src/state_machine.rs.
use mathlib.Core.List.{append-nil, append_assoc}
use d_lmdb.Base.{
  ℕ, ◌≤◌, ◌≡◌, refl, sym, ap, subst, ◌∙◌, true, false, Option, some, none, [], ◌∷◌, ◌++◌, ok, err,
  arith, leb, length, length-append, take, take-append, take-length_le, inl, inr, Bool-cases,
  ok-injective,
}
use d_lmdb.Bytes.{Bytes, bytes_le}
use d_lmdb.Bytes.Order.{lt_trans, lt_of_gt, gt_of_lt, eq_of_cmp}
use d_lmdb.Store.{Entries, excluded, unbounded, within}
use d_lmdb.Store.Sorted.{Above, IsSorted}
use d_lmdb.Lmdb.{Lmdb, Reads}
use d_lmdb.Machine.Scan.Live.{kept, end_bound}
use d_lmdb.Machine.Scan.{Filter, filtered, at_end, push, Items, scan_loop}

none_before :
    (e k : Bytes) (m : Entries)
    → bytes_le e k ≡ true
    → Above k m
    → within unbounded (excluded e) m ≡ []
unfolding within
none_before e k [] h a = refl
none_before e k ((j, w) ∷ m) h a = ground (
  arith,
  none_before e k m h a.1,
  lt_trans k j e,
  gt_of_lt k e,
  eq_of_cmp e k,
  lt_of_gt e k,
  gt_of_lt e k,
)

stop_before :
    (end : Option Bytes) (k v : Bytes) (m : Entries)
    → at_end end k ≡ true
    → Above k m
    → within unbounded (end_bound end) ((k, v) ∷ m) ≡ []
unfolding within
stop_before none k v m h a = cc
stop_before (some e) k v m h a = ground (arith, none_before e k m h a, lt_of_gt e k, gt_of_lt k e)

go_on_before :
    (end : Option Bytes) (k v : Bytes) (m : Entries)
    → at_end end k ≡ false
    → within unbounded (end_bound end) ((k, v) ∷ m) ≡ (k, v) ∷ within unbounded (end_bound end) m
unfolding within
go_on_before none k v m h = refl
go_on_before (some e) k v m h = ground (arith, lt_of_gt e k)

push-kept :
    (filter : Filter) (k v : Bytes) (acc m : Entries)
    → acc ++ kept filter ((k, v) ∷ m) ≡ push k (filtered filter v) acc ++ kept filter m
unfolding kept
push-kept none k v acc m = sym (append_assoc acc ((k, v) ∷ []) (kept none m))
push-kept (some f) k v acc m = pushed (f v)
  where
    pushed :
        (o : Option Bytes)
        → acc ++ (elim o [ some payload ↦ (k, payload) ∷ kept (some f) m | none ↦ kept (some f) m ])
          ≡ push k o acc ++ kept (some f) m
    pushed none = refl
    pushed (some p) = sym (append_assoc acc ((k, p) ∷ []) (kept (some f) m))

length-push :
    (k : Bytes) (o : Option Bytes) (acc : Entries) (cap : ℕ)
    → leb cap (length acc) ≡ false
    → length (push k o acc) ≤ cap
length-push k none acc cap h = ground arith
length-push k (some p) acc cap h = ground (arith, length-append acc ((k, p) ∷ []))

full :
    (cap : ℕ) (acc m : Entries)
    → leb cap (length acc) ≡ true
    → length acc ≤ cap
    → acc ≡ take cap (acc ++ m)
full cap acc m h l =
    let same : length acc ≡ cap = ground arith in
    subst (λ n. acc ≡ take n (acc ++ m)) same (sym (take-append acc m))

exhausted : (cap : ℕ) (acc : Entries) → length acc ≤ cap → acc ≡ take cap (acc ++ [])
exhausted cap acc l = rw append-nil (sym (take-length_le cap acc l))

module _ (L : Lmdb) (end : Option Bytes) (cap : ℕ) (filter : Filter) where
  -- what the loop returns from the entries `acc` when `m` is still to come
  abbrev Scanned : Entries → Entries → Entries → Type 0
  Scanned acc m out = out ≡ take cap (acc ++ kept filter (within unbounded (end_bound end) m))

  Scanned-nil : (acc : Entries) → length acc ≤ cap → Scanned acc [] acc
  unfolding within kept
  Scanned-nil acc l = exhausted cap acc l

  Scanned-stop :
      (k v : Bytes) (m acc : Entries)
      → at_end end k ≡ true
      → Above k m
      → length acc ≤ cap
      → Scanned acc ((k, v) ∷ m) acc
  Scanned-stop k v m acc e a l = rw (stop_before end k v m e a) (unfold kept in exhausted cap acc l)

  Scanned-step :
      (k v : Bytes) (m acc : Entries) {out : Entries}
      → at_end end k ≡ false
      → Scanned (push k (filtered filter v) acc) m out
      → Scanned acc ((k, v) ∷ m) out
  Scanned-step k v m acc e h =
      rw (go_on_before end k v m e)
        (h ∙ ap (take cap) (sym (push-kept filter k v acc (within unbounded (end_bound end) m))))

  pub scan_loop_exact :
      (items : Items L) (m acc : Entries) {out : Entries}
      → Reads items m
      → IsSorted m
      → length acc ≤ cap
      → scan_loop L end cap filter items acc ≡ ok out
      → Scanned acc m out
  unfolding scan_loop
  scan_loop_exact [] [] acc r s l h =
      subst (Scanned acc []) (ok-injective _ _ h) (Scanned-nil acc l)
  scan_loop_exact [] (x ∷ m) acc r s l h = absurd r
  scan_loop_exact (err e ∷ items) m acc {out} r s l h = elim (Bool-cases (leb cap (length acc))) [
    | inl stop ↦ sym (ok-injective acc out (rw (stop, scan_loop) at h)) ∙ full cap acc _ stop l
    | inr more ↦ cc (rw (more, scan_loop) at h)
  ]
  scan_loop_exact (ok e ∷ items) [] acc r s l h = absurd r
  scan_loop_exact (ok (k, v) ∷ items) (x ∷ m) acc {out} r s l h =
      let s' : IsSorted ((k, v) ∷ m) = subst (λ y. IsSorted (y ∷ m)) (sym r.0) s in
      subst (λ y. Scanned acc (y ∷ m) out) r.0
        (elim (Bool-cases (leb cap (length acc))) [
          | inl stop ↦
              sym (ok-injective acc out (rw (stop, scan_loop) at h)) ∙ full cap acc _ stop l
          | inr more ↦ elim (Bool-cases (at_end end k)) [
            | inl past ↦
                subst (Scanned acc ((k, v) ∷ m))
                  (ok-injective acc out (rw (more, past, scan_loop) at h))
                  (Scanned-stop k v m acc past s'.0 l)
            | inr here ↦ Scanned-step k v m acc here (
                scan_loop_exact items m (push k (filtered filter v) acc) r.1 s'.1
                  (length-push k (filtered filter v) acc cap more)
                  (rw (more, here, scan_loop) at h))
          ]
        ])
