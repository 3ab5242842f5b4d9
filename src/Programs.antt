-- ===== src/Programs.antt =====
-- The programs of examples/ and what they share: a node in its world, and steps that end the
-- program by an error, by a panic, or, where a loop is still running, by the end of its fuel.
pub mod Counter
pub mod Ensures
pub mod Reach
pub mod Shared
pub mod SingleNode
pub mod ThreeNode
use d_lmdb.Base.{ℕ, ◌≡◌, ◌≤◌, Bool, true, false, Option, none, some, Result, ok, err}
use d_lmdb.Bytes.{Bytes}
use d_lmdb.Lmdb.{Lmdb}
use d_lmdb.Machine.Types.{ScanResult}
use d_lmdb.Db.Types.{Error, ClientApiError}
use d_lmdb.Db.Read
use d_lmdb.Db.Read.{DLmdb}
use d_lmdb.Db.Write.{Request}
use d_lmdb.Host.{Step}

-- The handle that a program holds, as part of the world, with the clock and the engine's client.
-- `confirm` is the answer to a read that goes through Raft.
pub record Node (W : Type 0) (L : Lmdb) : Type 0 where
  pub handle : W → DLmdb L
  pub keep : DLmdb L → W → W
  pub clock : W → ℕ
  pub submit : Request → W → W × Result Bool ClientApiError
  pub confirm : Bytes → W → W × Result (Option Bytes) ClientApiError

-- The handle is a part of the world, and the clock does not go back while it is put in place.
pub record IsNode {W : Type 0} {L : Lmdb} (n : Node W L) : Type 0 where
  pub handle-keep : (d : DLmdb L) (w : W) → n.handle (n.keep d w) ≡ d
  pub clock-keep : (d : DLmdb L) (w : W) → n.clock w ≤ n.clock (n.keep d w)

module _ {W : Type 0} {L : Lmdb} (n : Node W L) where
  -- a read of the handle, which may reap
  abbrev pub reading : {A : Type 0} → (DLmdb L → ℕ → DLmdb L × Result A Error) → Step W A
  reading f w = let (d, r) = f (n.handle w) (n.clock w) in (n.keep d w, r)

  abbrev pub get_step : Bytes → Step W (Option Bytes)
  get_step key = reading (λ d now. Read.get d key now)

  abbrev pub exists_step : Bytes → Step W Bool
  exists_step key = reading (λ d now. Read.exists d key now)

  abbrev pub confirmed_step : Bytes → Step W (Option Bytes)
  confirmed_step key w =
      let (w', answer) = n.confirm key w in
      reading (λ d now. Read.get_confirmed d key answer now) w'

  abbrev pub scanning : (DLmdb L → ℕ → Result ScanResult Error) → Step W ScanResult
  scanning f w = (w, f (n.handle w) (n.clock w))

pub data Outcome (A : Type 0) : Type 0 where
  done : A → Outcome A
  failed : Error → Outcome A
  panicked running : Outcome A

abbrev pub Prog : Type 0 → Type 0 → Type 0
Prog W A = W → W × Outcome A

abbrev pub following : {W A B : Type 0} → W × Outcome A → (A → Prog W B) → W × Outcome B
following (w, done a) next = next a w
following (w, failed e) next = (w, failed e)
following (w, panicked) next = (w, panicked)
following (w, running) next = (w, running)

infixl 5 ◌>>=◌
unfoldable pub ◌>>=◌ : {W A B : Type 0} → Prog W A → (A → Prog W B) → Prog W B
◌>>=◌ first next w = following (first w) next

-- `?`
abbrev pub outcome_of : {A : Type 0} → Result A Error → Outcome A
outcome_of (ok a) = done a
outcome_of (err e) = failed e

abbrev pub attempted : {W A : Type 0} → Step W A → Prog W A
attempted m w = let (w', r) = m w in (w', outcome_of r)

-- `if let Err(e) = .. { eprintln!(..) }`
abbrev pub logged : {W A : Type 0} → Step W A → Prog W (Unit {0})
logged m w = let (w', r) = m w in (w', done tt)

-- `assert!`
abbrev pub asserted : {W : Type 0} → Bool → Prog W (Unit {0})
asserted true w = (w, done tt)
asserted false w = (w, panicked)
