-- ===== src/Machine/Scan/Ranges.antt =====
-- The forward scans of a state machine, over what its environment holds.
use d_lmdb.Base.{
  ℕ, ◌+◌, ◌≡◌, sym, ap, ◌∙◌, Option, some, none, [], ◌∷◌, ◌++◌, ok, take, drop, length,
  take-take-drop, arith, >>=-eq-ok, map_err-eq-ok, ok-injective, subst,
}
use d_lmdb.Bytes.{Bytes}
use d_lmdb.Store.{Entries, Bound, included, excluded, unbounded, within, last}
use d_lmdb.Store.Sorted.{IsSorted, within-IsSorted}
use d_lmdb.Store.Range.{within-within, within-excluded, within-start, within-last}
use d_lmdb.Lmdb.{Lmdb, kv, IsLawful}
use d_lmdb.Machine.Types.{ScanResult, LmdbStateMachine, lmdb_err}
use d_lmdb.Machine.Scan.{
  Filter, cap_of, start_after, next_prefix, scan_loop, scan_range_core, scan_prefix_bounded,
}
use d_lmdb.Machine.Scan.Live.{
  kept, end_bound, having, HasByteKeys, within-next_prefix, kept-within, kept-IsSorted,
  All-start-kept, All-start-last,
}
use d_lmdb.Machine.Scan.Forward.{scan_loop_exact}

-- the entries of the kv database
abbrev pub stored : {L : Lmdb} → LmdbStateMachine L → Entries
stored {L} m = L.contents m.env kv

-- the first live entries of a range, with the index at which they were read
abbrev pub page :
    {L : Lmdb} → LmdbStateMachine L → Bound → Option Bytes → Option ℕ → Filter → ScanResult
page m start end limit f = record {
  entries = take (cap_of limit) (kept f (within start (end_bound end) (stored m)));
  revision = m.last_applied_index;
}

module _ {L : Lmdb} (laws : IsLawful L) (m : LmdbStateMachine L) where
  pub scan_range_core_exact :
      (start : Bound) (end : Option Bytes) (limit : Option ℕ) (f : Filter) {r : ScanResult}
      → scan_range_core m start end limit f ≡ ok r
      → r ≡ page m start end limit f
  unfolding scan_range_core
  scan_range_core_exact start end limit f {r} h =
      let (t, began, h1) = >>=-eq-ok (lmdb_err L (L.read_txn m.env)) _ h in
      let (items, ranged, h2) = >>=-eq-ok (lmdb_err L (L.range t kv start unbounded)) _ h1 in
      let (out, scanned, h3) = >>=-eq-ok (scan_loop L end (cap_of limit) f items []) _ h2 in
      let seen : L.view t kv ≡ stored m =
        ap (λ v. v kv) (laws.read_view m.env (map_err-eq-ok _ _ began)) in
      let exact =
        scan_loop_exact L end (cap_of limit) f items _ []
          (laws.range_reads t kv start unbounded (map_err-eq-ok _ _ ranged))
          (within-IsSorted start unbounded _
            (subst IsSorted (sym seen) (laws.contents-IsSorted m.env kv)))
          (omega arith) scanned in
      let result : Entries → ScanResult =
        λ es. record { entries = es; revision = m.last_applied_index } in
      sym (ok-injective _ _ h3)
      ∙ ap result (
          exact
          ∙ ap (λ v. take (cap_of limit) (kept f v))
              (within-within start (end_bound end) (L.view t kv)
                ∙ ap (within start (end_bound end)) seen))

  -- A successful scan of a non-empty prefix from its start, over keys made of bytes, returns the
  -- first live entries whose keys start with the prefix, at most `limit` of them, in key order,
  -- with the index of the last applied entry.
  pub scan_prefix_exact :
      (b : ℕ) (p : Bytes) (limit : Option ℕ) (f : Filter) {r : ScanResult}
      → HasByteKeys (stored m)
      → scan_prefix_bounded m (b ∷ p) none limit f ≡ ok r
      → (r.entries ≡ take (cap_of limit) (kept f (having (b ∷ p) (stored m))))
        × (r.revision ≡ m.last_applied_index)
  unfolding scan_prefix_bounded
  scan_prefix_exact b p limit f {r} w h =
      let exact = scan_range_core_exact (included (b ∷ p)) (next_prefix (b ∷ p)) limit f h in
      (
        ap (λ s. s.entries) exact
            ∙ ap (λ v. take (cap_of limit) (kept f v)) (within-next_prefix (b ∷ p) (stored m) w),
        ap (λ s. s.revision) exact,
      )

  -- Two consecutive pages of any range: the second starts after the last key of the first.
  pages_join :
      (start : Bound) (end : Option Bytes) (n : ℕ) (f : Filter) (a w : Bytes)
      → last (take n (kept f (within start (end_bound end) (stored m)))) ≡ some (a, w)
      → kept f (within (excluded a) (end_bound end) (stored m))
        ≡ drop
            (length (take n (kept f (within start (end_bound end) (stored m)))))
            (kept f (within start (end_bound end) (stored m)))
  pages_join start end n f a w e =
      let range = within start (end_bound end) (stored m) in
      let from =
        All-start-last start a w n (kept f range)
          (All-start-kept start f range (within-start start (end_bound end) (stored m))) e in
      ap (kept f) (sym (within-excluded start (end_bound end) a (stored m) from))
      ∙ kept-within f (excluded a) unbounded range
      ∙ within-last a w n (kept f range)
          (kept-IsSorted f range
            (within-IsSorted start (end_bound end) _ (laws.contents-IsSorted m.env kv)))
          e

  -- Two consecutive pages are one larger page: a successful scan of a non-empty prefix with
  -- limit `n`, from wherever it starts, which returned something, followed by a scan of the
  -- unchanged machine with limit `k` after the last key that was returned, give together what
  -- one scan with limit `n + k` gives, with no entry lost or repeated.
  pub scan_prefix_pages :
      (b : ℕ) (p : Bytes) (after : Option Bytes) (n k : ℕ) (f : Filter) (a w : Bytes)
      {r s whole : ScanResult}
      → scan_prefix_bounded m (b ∷ p) after (some n) f ≡ ok r
      → last r.entries ≡ some (a, w)
      → scan_prefix_bounded m (b ∷ p) (some a) (some k) f ≡ ok s
      → scan_prefix_bounded m (b ∷ p) after (some (n + k)) f ≡ ok whole
      → r.entries ++ s.entries ≡ whole.entries
  unfolding scan_prefix_bounded
  scan_prefix_pages b p after n k f a w {r} {s} {whole} first e second one =
      let start = start_after (b ∷ p) after in
      let end = next_prefix (b ∷ p) in
      let live = kept f (within start (end_bound end) (stored m)) in
      let firsts = ap (λ x. x.entries) (scan_range_core_exact start end (some n) f first) in
      let seconds =
        ap (λ x. x.entries) (scan_range_core_exact (excluded a) end (some k) f second) in
      let wholes = ap (λ x. x.entries) (scan_range_core_exact start end (some (n + k)) f one) in
      let rest = pages_join start end n f a w (ap last (sym firsts) ∙ e) in
      rw (firsts, seconds, wholes)
        (ap (λ v. take n live ++ take k v) rest ∙ take-take-drop n k live)
