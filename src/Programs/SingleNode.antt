-- ===== src/Programs/SingleNode.antt =====
-- `main` of examples/single-node/single_node.rs. What is only printed is left out.
pub mod Ends
use d_lmdb.Base.{ℕ, Bool, true, false, not, Option, none, some, List, [], ◌∷◌, Result, ok, err}
use d_lmdb.Bytes.{Bytes, ascii}
use d_lmdb.Store.{Entries, last}
use d_lmdb.Lmdb.{Lmdb}
use d_lmdb.Machine.Types.{BatchOp, ScanResult}
use d_lmdb.Wal.{Codec}
use d_lmdb.Db.Types.{Error}
use d_lmdb.Db.Read
use d_lmdb.Db.Read.{DLmdb}
use d_lmdb.Host.{Host, Step}
use d_lmdb.Open.{Opened, open_default}
use d_lmdb.Open.Cluster.{Cluster, wait_ready}
use d_lmdb.Programs.{
  Node, get_step, exists_step, confirmed_step, scanning, Outcome, done, failed, running, Prog,
  ◌>>=◌, attempted, asserted,
}
use d_lmdb.Programs.Counter.{increment}
use d_lmdb.Programs.Shared.{
  user_1, user_2, views_key, renaming, hold, closing, putting, putting_ttl, deleting, batching,
  putting_if_absent,
}

-- a loop's end, if it ended
abbrev pub counted_by : {W : Type 0} → W → Option (W × Result Bytes Error) → W × Outcome Bytes
counted_by w none = (w, running)
counted_by w (some (w', ok next)) = (w', done next)
counted_by w (some (w', err e)) = (w', failed e)

module _ {W : Type 0} {L : Lmdb} (n : Node W L) where
  -- `page1.entries.last()`
  abbrev pub second_page : Option (Bytes × Bytes) → Prog W (Unit {0})
  second_page none w = (w, done tt)
  second_page (some (last_key, v)) w =
      (do
        page2 ←
            attempted (
              scanning n (λ d now. Read.scan_prefix d (ascii "user:") (some last_key) (some 2) now))
        (λ w. (w, done tt)))
        w

  -- there is no other client; `fuel` bounds the rounds of the counter's loop
  unfoldable pub counting : ℕ → Prog W Bytes
  counting fuel w = counted_by w (increment n views_key (get_step n views_key) (λ i v. v) fuel w)

  -- sections 1 to 3
  unfoldable pub writing : ℕ → Prog W (Unit {0})
  writing fuel = do
    p1 ← attempted (putting n user_1 (ascii "alice"))
    p2 ← attempted (putting n user_2 (ascii "bob"))
    alice ← attempted (get_step n user_1)
    there ← attempted (exists_step n user_2)
    first ← asserted there
    deleted ← attempted (deleting n user_2)
    still ← attempted (exists_step n user_2)
    second ← asserted (not still)
    renamed ← attempted (batching n renaming)
    alice_v2 ← attempted (get_step n user_1)
    reset ← attempted (putting n views_key (ascii "1000"))
    next ← counting fuel
    (λ w. (w, done tt))

  -- sections 4 to 6
  unfoldable pub browsing : Prog W (Unit {0})
  browsing = do
    session ← attempted (putting_ttl n (ascii "session:tok_abc123") user_1 30)
    acquired ← attempted (putting_if_absent n (ascii "lock:invoice:42") (ascii "node:1"))
    cached ← attempted (putting_ttl n (ascii "cache:product:99") (ascii "{\"price\":9.99}") 300)
    carol ← attempted (putting n (ascii "user:3") (ascii "carol"))
    users ← attempted (scanning n (λ d now. Read.scan_prefix d (ascii "user:") none (some 100) now))
    page1 ← attempted (scanning n (λ d now. Read.scan_prefix d (ascii "user:") none (some 2) now))
    page2 ← second_page (last page1.entries)
    range ←
        attempted (scanning n (λ d now. Read.scan_range d user_1 (ascii "user:9") (some 10) now))
    views ← attempted (confirmed_step n views_key)
    (λ w. (w, done tt))

module _ {W : Type 0} {L : Lmdb} (host : Host W L) (C : Codec) (cluster : Cluster host)
    (n : Node W L) where
  unfoldable pub single_node : ℕ → Prog W (Unit {0})
  single_node fuel = do
    o ← attempted (open_default host C (ascii "./data"))
    held ← hold host C n o
    ready ← attempted (wait_ready host C cluster o 10)
    written ← writing n fuel
    browsed ← browsing n
    attempted (closing host C n o)
