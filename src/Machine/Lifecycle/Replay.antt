-- ===== src/Machine/Lifecycle/Replay.antt =====
-- Applying the log again after a crash.
use d_lmdb.Base.{ℕ, ◌+◌, ◌<◌, ◌^◌, ◌≡◌, ◌≢◌, ap, ◌∙◌, false, Option, some, List, [], ◌∷◌, ok, arith}
use d_lmdb.Bytes.{Bytes, bytes_eq}
use d_lmdb.Bytes.Order.{bytes_eq_refl, eq_of_bytes_eq}
use d_lmdb.Lmdb.{Lmdb, IsLawful}
use d_lmdb.Machine.Types.{
  LogId, compare_and_swap, ApplyEntry, ApplyResult, LmdbStateMachine, last_applied,
}
use d_lmdb.Machine.Apply.{apply_chunk}
use d_lmdb.Machine.Apply.Spec.{KeyValues, update, run_command, run_entries, reads}
use d_lmdb.Machine.Apply.Chunk.{apply_chunk-Refines}
use d_lmdb.Machine.Lifecycle.{new}
use d_lmdb.Machine.Lifecycle.Recovery.{Marks, crash-new}

-- Two swaps of one key: from `b` to `c`, then from `a` to `b`.
abbrev pub swaps : ℕ → ℕ → Bytes → Bytes → Bytes → Bytes → List ApplyEntry
swaps i u k a b c =
    record { index = i; term = u; command = compare_and_swap k (some b) c }
    ∷ record { index = i + 1; term = u; command = compare_and_swap k (some a) b }
    ∷ []

bytes_eq_of_ne : (a b : Bytes) → a ≢ b → bytes_eq a b ≡ false
bytes_eq_of_ne a b n = ground (arith, eq_of_bytes_eq a b)

update_self : (f : KeyValues) (k : Bytes) (v : Option Bytes) → update f k v k ≡ v
update_self f k v = rw (bytes_eq_refl k)

swap_taken :
    (k e v : Bytes) (f : KeyValues)
    → f k ≡ some e
    → run_command (compare_and_swap k (some e) v) f ≡ update f k (some v)
unfolding run_command
swap_taken k e v f h = rw (h, bytes_eq_refl e)

swap_refused :
    (k d e v : Bytes) (f : KeyValues)
    → f k ≡ some d
    → d ≢ e
    → run_command (compare_and_swap k (some e) v) f ≡ f
unfolding run_command
swap_refused k d e v f h n = rw (h, bytes_eq_of_ne d e n)

swap_run :
    (i u : ℕ) (k a b c : Bytes) (f : KeyValues)
    → f k ≡ some a
    → a ≢ b
    → run_entries (swaps i u k a b c) f k ≡ some b
unfolding run_entries
swap_run i u k a b c f h n =
    rw (swap_refused k a b c f h n, swap_taken k a b f h) (update_self f k (some b))

swap_rerun :
    (i u : ℕ) (k a b c : Bytes) (f : KeyValues)
    → f k ≡ some b
    → c ≢ a
    → run_entries (swaps i u k a b c) f k ≡ some c
unfolding run_entries
swap_rerun i u k a b c f h n =
    let swapped = update_self f k (some c) in
    rw (swap_taken k b c f h, swap_refused k c a b (update f k (some c)) swapped n) swapped

-- The state machine does not persist the last applied entry with the data. Where a key holds
-- `a`, other than `b` and `c`, and a chunk swaps `b` for `c` and then `a` for `b`, a crash after
-- the chunk brings the machine back with the last applied entry from before it; the first
-- application left `b` under the key, and the second one, which is then due, leaves `c`.
pub replay_diverges :
    {L : Lmdb} (laws : IsLawful L) (m : LmdbStateMachine L) (id : LogId) (map_size i u : ℕ)
    (k a b c : Bytes) {rs us : List ApplyResult} {n : LmdbStateMachine L}
    → id.index < 2 ^ 64
    → id.term < 2 ^ 64
    → Marks (L.contents m.env) id
    → reads m k ≡ some a
    → a ≢ b
    → c ≢ a
    → (apply_chunk m (swaps i u k a b c)).1 ≡ ok rs
    → new L (apply_chunk m (swaps i u k a b c)).0.env map_size ≡ ok n
    → (apply_chunk n (swaps i u k a b c)).1 ≡ ok us
    → (last_applied n ≡ id)
      × (reads (apply_chunk m (swaps i u k a b c)).0 k ≡ some b)
      × (reads (apply_chunk n (swaps i u k a b c)).0 k ≡ some c)
replay_diverges laws m id map_size i u k a b c {n = n} hi ht marks holds_a ab ca first opened
      second =
    let before = apply_chunk-Refines laws m (swaps i u k a b c) first in
    let (applied, keys) =
      crash-new laws m (swaps i u k a b c) id map_size hi ht marks first opened in
    let again = apply_chunk-Refines laws n (swaps i u k a b c) second in
    let ran_b = swap_run i u k a b c (reads m) holds_a ab in
    (
      applied,
      ap (λ f. f k) before.keys ∙ ran_b,
      ap (λ f. f k) again.keys ∙ swap_rerun i u k a b c (reads n) (ap (λ f. f k) keys ∙ ran_b) ca,
    )
