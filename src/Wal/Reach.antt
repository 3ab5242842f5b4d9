-- ===== src/Wal/Reach.antt =====
-- The states that `LmdbWal` of d-lmdb/src/storage_engine.rs can reach, across failures and restarts.
use d_lmdb.Base.{ℕ, ◌<◌, ◌^◌, ◌≡◌, sym, subst, none, List, [], ok}
use d_lmdb.Machine.Types.{LogId}
use d_lmdb.Lmdb.{Lmdb, log, IsLawful}
use d_lmdb.Wal
use d_lmdb.Wal.{Codec, LmdbWal, persist_entries, truncate, purge, reset, save_hard_state}
use d_lmdb.Wal.Log.{stored_at, InRange}
use d_lmdb.Wal.Tail.{Covers, lookup-Covers}
use d_lmdb.Wal.Last.{
  IsCovered, persist_entries-IsCovered, truncate-IsCovered, purge-IsCovered, reset-IsCovered,
  save_hard_state-IsCovered, new-IsCovered,
}

module _ {L : Lmdb} (C : Codec) where
  -- A log is opened on an environment without entries, its operations succeed or fail, and it is
  -- opened again on what it left. Entries have indices of 64 bits.
  pub data Reached : LmdbWal L → Type 0 where
    created :
        (env : L.Env) {w : LmdbWal L} → L.contents env log ≡ [] → Wal.new L C env ≡ ok w → Reached w
    persisted :
        (w : LmdbWal L) (es : List C.Entry)
        → InRange C es
        → Reached w
        → Reached (persist_entries L C w es).0
    cut : (w : LmdbWal L) (from : ℕ) → Reached w → Reached (truncate L C w from).0
    purged : (w : LmdbWal L) (cutoff : LogId) → Reached w → Reached (purge L C w cutoff).0
    was_reset : (w : LmdbWal L) → Reached w → Reached (reset L C w).0
    saved :
        (w : LmdbWal L) (state : C.HardState) → Reached w → Reached (save_hard_state L C w state).0
    reopened : (w : LmdbWal L) {w' : LmdbWal L} → Wal.new L C w.env ≡ ok w' → Reached w → Reached w'

  module _ (laws : IsLawful L) where
    pub Reached-IsCovered : (w : LmdbWal L) → Reached w → IsCovered laws C w
    Reached-IsCovered w (created env empty h) =
        new-IsCovered laws C 0 env (subst (λ m. Covers 0 m) (sym empty) tt) h
    Reached-IsCovered w (persisted v es r s) =
        persist_entries-IsCovered laws C v es r (Reached-IsCovered v s)
    Reached-IsCovered w (cut v from s) = truncate-IsCovered laws C v from (Reached-IsCovered v s)
    Reached-IsCovered w (purged v cutoff s) =
        purge-IsCovered laws C v cutoff (Reached-IsCovered v s)
    Reached-IsCovered w (was_reset v s) = reset-IsCovered laws C v (Reached-IsCovered v s)
    Reached-IsCovered w (saved v state s) =
        save_hard_state-IsCovered laws C v state (Reached-IsCovered v s)
    Reached-IsCovered w (reopened v h s) =
        new-IsCovered laws C v.last_index v.env (Reached-IsCovered v s) h

    -- Nothing is stored above the last index that the log keeps in memory, after any sequence of its
    -- operations, failed ones and restarts included, for indices of 64 bits.
    pub nothing_above_last_index :
        (w : LmdbWal L) (j : ℕ) → Reached w → j < 2 ^ 64 → w.last_index < j → stored_at w j ≡ none
    nothing_above_last_index w j s h above =
        lookup-Covers w.last_index j (L.contents w.env log) h above (Reached-IsCovered w s)
