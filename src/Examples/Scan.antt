-- ===== src/Examples/Scan.antt =====
-- Runs of the scans.
use mathlib.Core.List.{reverse}
use d_lmdb.Base.{ℕ, ◌≡◌, refl, some, none, [], ◌∷◌, ◌++◌, ok, take, arith}
use d_lmdb.Bytes.{cmp, Bytes}
use d_lmdb.Store.{Entries, included, excluded, within, last}
use d_lmdb.Lmdb.Memory.{memory-IsLawful}
use d_lmdb.Db.Decode.{decode_for_scan}
use d_lmdb.Wire.{decode}
use d_lmdb.Bytes.Word.{from_be}
use d_lmdb.Machine.Types.{ScanResult}
use d_lmdb.Machine.Scan.{
  Filter, cap_of, next_prefix_loop, next_prefix, scan_loop, rev_loop, scan_range_core,
  scan_prefix_bounded, scan_range_rev,
}
use d_lmdb.Machine.Scan.Live.{kept, having, HasByteKeys}
use d_lmdb.Machine.Scan.Ranges.{stored, scan_prefix_exact, scan_prefix_pages}
use d_lmdb.Machine.Scan.Reverse.{at_least_one, scan_range_rev_exact}
use d_lmdb.Examples.{filled}

abbrev live_at : ℕ → Filter
live_at now = some (decode_for_scan now)

abbrev prefix_a : Bytes
prefix_a = 97 ∷ []

abbrev read_as : Entries → ScanResult
read_as es = record { entries = es; revision = 7 }

abbrev two : Entries
two = (97 ∷ 1 ∷ [], 10 ∷ []) ∷ (97 ∷ 2 ∷ [], 11 ∷ []) ∷ []

has_byte_keys : HasByteKeys (stored filled)
has_byte_keys = ground arith

scanned : scan_prefix_bounded filled prefix_a none (some 5) (live_at 9) ≡ ok (read_as two)
unfolding scan_prefix_bounded scan_range_core scan_loop next_prefix next_prefix_loop cmp within
    decode_for_scan decode from_be
scanned = refl

scan_prefix_exact_example :
    (two ≡ take (cap_of (some 5)) (kept (live_at 9) (having prefix_a (stored filled))))
    × ((read_as two).revision ≡ filled.last_applied_index)
scan_prefix_exact_example =
    scan_prefix_exact memory-IsLawful filled 97 [] (some 5) (live_at 9) has_byte_keys scanned

first_page :
    scan_prefix_bounded filled prefix_a none (some 1) (live_at 9)
    ≡ ok (read_as ((97 ∷ 1 ∷ [], 10 ∷ []) ∷ []))
unfolding scan_prefix_bounded scan_range_core scan_loop next_prefix next_prefix_loop cmp within
    decode_for_scan decode from_be
first_page = refl

second_page :
    scan_prefix_bounded filled prefix_a (some (97 ∷ 1 ∷ [])) (some 4) (live_at 9)
    ≡ ok (read_as ((97 ∷ 2 ∷ [], 11 ∷ []) ∷ []))
unfolding scan_prefix_bounded scan_range_core scan_loop next_prefix next_prefix_loop cmp within
    decode_for_scan decode from_be
second_page = refl

scan_prefix_pages_example : ((97 ∷ 1 ∷ [], 10 ∷ []) ∷ []) ++ ((97 ∷ 2 ∷ [], 11 ∷ []) ∷ []) ≡ two
unfolding last
scan_prefix_pages_example =
    scan_prefix_pages memory-IsLawful filled 97 [] none 1 4 (live_at 9) (97 ∷ 1 ∷ []) (10 ∷ [])
      {r = read_as ((97 ∷ 1 ∷ [], 10 ∷ []) ∷ [])} {s = read_as ((97 ∷ 2 ∷ [], 11 ∷ []) ∷ [])}
      {whole = read_as two} first_page refl second_page scanned

-- the limit is 0, and one entry comes back
one_back :
    scan_range_rev filled prefix_a (99 ∷ []) (some 0) none
    ≡ ok (read_as ((98 ∷ [], 1 ∷ 0 ∷ 0 ∷ 0 ∷ 0 ∷ 0 ∷ 0 ∷ 0 ∷ 9 ∷ 12 ∷ []) ∷ []))
unfolding scan_range_rev rev_loop cmp within
one_back = refl

scan_range_rev_exact_example :
    ((98 ∷ [], 1 ∷ 0 ∷ 0 ∷ 0 ∷ 0 ∷ 0 ∷ 0 ∷ 0 ∷ 9 ∷ 12 ∷ []) ∷ [])
    ≡ take
        (at_least_one (cap_of (some 0)))
        (reverse (kept none (within (included prefix_a) (excluded (99 ∷ [])) (stored filled))))
scan_range_rev_exact_example =
    scan_range_rev_exact memory-IsLawful filled 97 [] (99 ∷ []) (some 0) none one_back
