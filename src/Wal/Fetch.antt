-- ===== src/Wal/Fetch.antt =====
-- What `get_entries` returns, over a log that holds encoded entries under their indices.
use mathlib.Core.List.{append-nil, append_assoc}
use d_lmdb.Base.{
  ℕ, ◌<◌, ◌^◌, ◌==◌, ◌≡◌, refl, sym, ap, subst, ◌∙◌, true, List, [], ◌∷◌, ◌++◌, ok, err, arith, All,
  ltb, leb, if◌then◌else◌, length, >>=-eq-ok, map_err-eq-ok, ok-injective, Bool-cases, inl, inr,
  Result,
}
use d_lmdb.Bytes.{Bytes}
use d_lmdb.Bytes.Word.{to_be, length-to_be, from_be-to_be, cmp-to_be}
use d_lmdb.Store.{Entries, included, unbounded, within}
use d_lmdb.Store.Sorted.{Above, IsSorted, within-IsSorted}
use d_lmdb.Lmdb.{Lmdb, log, Reads, IsLawful}
use d_lmdb.Wal.{Codec, LmdbWal, db_err, collect, get_entries}
use d_lmdb.Wal.Log.{InRange, bytes_le-to_be}

module _ (C : Codec) where
  -- entries as the log stores them
  abbrev pub laid : List C.Entry → Entries
  laid [] = []
  laid (e ∷ es) = (to_be 8 (C.index e), C.encode_entry e) ∷ laid es

  -- the entries from an index on
  unfoldable pub since : ℕ → List C.Entry → List C.Entry
  since start [] = []
  since start (e ∷ es) =
      let rest = since start es in if leb start (C.index e) then e ∷ rest else rest

  -- the entries up to an index, itself included
  unfoldable pub up_to : ℕ → List C.Entry → List C.Entry
  up_to end [] = []
  up_to end (e ∷ es) = let rest = up_to end es in if ltb end (C.index e) then rest else e ∷ rest

  -- the decoder reads back what the encoder writes for these entries
  abbrev pub Readable : List C.Entry → Type 0
  Readable es = All (λ e. C.decode_entry (C.encode_entry e) ≡ ok e) es

  All-since :
      (P : C.Entry → Type 0) (start : ℕ) (es : List C.Entry) → All P es → All P (since start es)
  unfolding since
  All-since P start [] h = tt
  All-since P start (e ∷ es) h = elim (Bool-cases (leb start (C.index e))) [
    | inl from ↦ rw from (h.0, All-since P start es h.1)
    | inr before ↦ rw before (All-since P start es h.1)
  ]

  within-laid :
      (start : ℕ) (es : List C.Entry)
      → start < 2 ^ 64
      → InRange C es
      → within (included (to_be 8 start)) unbounded (laid es) ≡ laid (since start es)
  unfolding within since
  within-laid start [] hs r = refl
  within-laid start (e ∷ es) hs r =
      let same = bytes_le-to_be start (C.index e) hs r.0 in
      elim (Bool-cases (leb start (C.index e))) [
        | inl from ↦
            rw (same, from)
              (ap (λ m. (to_be 8 (C.index e), C.encode_entry e) ∷ m) (within-laid start es hs r.1))
        | inr before ↦ rw (same, before) (within-laid start es hs r.1)
      ]

  past_end :
      (end i : ℕ) (es : List C.Entry)
      → i < 2 ^ 64
      → ltb end i ≡ true
      → Above (to_be 8 i) (laid es)
      → InRange C es
      → up_to end es ≡ []
  unfolding up_to
  past_end end i [] hi past a r = refl
  past_end end i (e ∷ es) hi past a r =
      let above = sym (cmp-to_be 8 i (C.index e) hi r.0) ∙ a.0 in
      let beyond : ltb end (C.index e) ≡ true = ground arith in
      rw beyond (past_end end i es hi past a.1 r.1)

  module _ (L : Lmdb) (end : ℕ) where
    collect-up_to :
        (items : List (Result (Bytes × Bytes) L.HeedError)) (es acc : List C.Entry)
        {out : List C.Entry}
        → Reads items (laid es)
        → IsSorted (laid es)
        → InRange C es
        → Readable es
        → collect L C end items acc ≡ ok out
        → out ≡ acc ++ up_to end es
    unfolding collect up_to
    collect-up_to [] [] acc r s n d h = sym (ok-injective _ _ h) ∙ sym (append-nil acc)
    collect-up_to [] (e ∷ es) acc r s n d h = absurd r
    collect-up_to (err x ∷ items) es acc r s n d h = cc
    collect-up_to (ok p ∷ items) [] acc r s n d h = absurd r
    collect-up_to (ok p ∷ items) (e ∷ es) acc {out} r s n d h =
        let i = C.index e in
        let h' = subst (λ q. collect L C end (ok q ∷ items) acc ≡ ok out) r.0 h in
        let eight : (length (to_be 8 i) == 8) ≡ true = ground (arith, length-to_be 8 i) in
        let index = from_be-to_be 8 i n.0 in
        elim (Bool-cases (ltb end i)) [
          | inl past ↦
              sym (ok-injective acc out (rw (eight, index, past, collect) at h'))
              ∙ rw past (
                  sym (append-nil acc)
                  ∙ ap (λ m. acc ++ m) (sym (past_end end i es n.0 past s.0 n.1)))
          | inr here ↦
              collect-up_to items es (acc ++ (e ∷ [])) r.1 s.1 n.1 d.1
                (rw (eight, index, here, d.0, collect) at h')
              ∙ rw here (append_assoc acc (e ∷ []) (up_to end es))
        ]

-- Over a log that holds the entries `all` under their indices in 64 bits, and a decoder that reads
-- them back, a successful `get_entries` returns those with an index from `start` to `end`, both
-- included, in the order of the log.
pub get_entries_exact :
    {L : Lmdb} (laws : IsLawful L) (C : Codec) (w : LmdbWal L) (start end : ℕ) (all : List C.Entry)
    {out : List C.Entry}
    → start < 2 ^ 64
    → InRange C all
    → Readable C all
    → L.contents w.env log ≡ laid C all
    → get_entries L C w start end ≡ ok out
    → out ≡ up_to C end (since C start all)
unfolding get_entries
get_entries_exact {L} laws C w start end all hs n d holds h =
    let (t, began, h1) = >>=-eq-ok (db_err L (L.read_txn w.env)) _ h in
    let (items, ranged, h2) =
      >>=-eq-ok (db_err L (L.range t log (included (to_be 8 start)) unbounded)) _ h1 in
    let range = within (included (to_be 8 start)) unbounded (L.view t log) in
    let seen : range ≡ laid C (since C start all) =
      ap (λ m. within (included (to_be 8 start)) unbounded m)
        (ap (λ v. v log) (laws.read_view w.env (map_err-eq-ok _ _ began)) ∙ holds)
      ∙ within-laid C start all hs n in
    let sorted : IsSorted (L.view t log) =
      subst (λ v. IsSorted (v log)) (sym (laws.read_view w.env (map_err-eq-ok _ _ began)))
        (laws.contents-IsSorted w.env log) in
    collect-up_to C L end items (since C start all) []
      (subst (Reads items) seen (laws.range_reads t log _ _ (map_err-eq-ok _ _ ranged)))
      (subst IsSorted seen (within-IsSorted (included (to_be 8 start)) unbounded _ sorted))
      (All-since C _ start all n) (All-since C _ start all d) h2
