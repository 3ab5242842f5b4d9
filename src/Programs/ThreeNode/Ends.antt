-- ===== src/Programs/ThreeNode/Ends.antt =====
-- The counter's loop of examples/three-node/three_node.rs, which reads through Raft.
use d_lmdb.Base.{ℕ, ◌<◌, ◌≡◌, refl, ap, ◌∙◌, Bool, false, Option, none, some, ok, if◌then◌else◌}
use d_lmdb.Bytes.{Bytes}
use d_lmdb.Lmdb.{Lmdb, IsLawful}
use d_lmdb.Machine.Apply.Spec.{reads, update}
use d_lmdb.Db.Decode.Expiry.{live-encode_raw, shown}
use d_lmdb.Db.Read.{DLmdb}
use d_lmdb.Db.Read.Reap.{shown_raw}
use d_lmdb.Db.Read.Confirmed.{is_expired, has_expired, get_confirmed_shows}
use d_lmdb.Db.Write.Swap.{Reports}
use d_lmdb.Programs.{Node, IsNode, confirmed_step, done}
use d_lmdb.Programs.Counter.Round.{stored_as, machine_of, stored, ReadsPlain}
use d_lmdb.Programs.Counter.Loop.{HoldsPlain, increment_ends}
use d_lmdb.Programs.Shared.{views_key}
use d_lmdb.Programs.ThreeNode.{left_by, racing}

-- When a read was confirmed, this node has applied what the answer tells, and the confirmation itself
-- changes nothing that is stored.
pub record Confirms {W : Type 0} {L : Lmdb} (n : Node W L) : Type 0 where
  pub confirm_reads :
      (key : Bytes) (w : W) {raw : Option Bytes}
      → (n.confirm key w).1 ≡ ok raw
      → raw ≡ stored n (n.confirm key w).0 key
  pub confirm_keeps : (key : Bytes) (w : W) → stored n (n.confirm key w).0 ≡ stored n w

plain_shown : (payload : Option Bytes) (now : ℕ) → shown_raw (stored_as payload) now ≡ payload
plain_shown none now = refl
plain_shown (some x) now = ap shown (live-encode_raw x now)

plain_unexpired : (payload : Option Bytes) (now : ℕ) → has_expired (stored_as payload) now ≡ false
plain_unexpired none now = refl
plain_unexpired (some x) now = ap is_expired (live-encode_raw x now)

module _ {W : Type 0} {L : Lmdb} (laws : IsLawful L) (n : Node W L) (is : IsNode n)
    (confirms : Confirms n) where
  confirmed_step-ReadsPlain : (key : Bytes) → ReadsPlain n key (confirmed_step n key)
  confirmed_step-ReadsPlain key w payload seen held h =
      let w' = (n.confirm key w).0 in
      let (raw, answer, same, left) =
        get_confirmed_shows laws (n.handle w') key (n.confirm key w).1 (n.clock w') h in
      let plain : raw ≡ stored_as payload =
        confirms.confirm_reads key w answer
        ∙ ap (λ f. f key) (confirms.confirm_keeps key w)
        ∙ held in
      let unexpired : has_expired raw (n.clock w') ≡ false =
        ap (λ r. has_expired r (n.clock w')) plain ∙ plain_unexpired payload (n.clock w') in
      (
        same ∙ ap (λ r. shown_raw r (n.clock w')) plain ∙ plain_shown payload (n.clock w'),
        ap (λ (d : DLmdb L). reads d.state_machine) (is.handle-keep _ w')
            ∙ left
            ∙ ap (λ (b : Bool). if b then update (stored n w') key none else stored n w') unexpired
            ∙ confirms.confirm_keeps key w,
      )

  -- Where the counter's key holds no value with an expiry, other clients never put one there, and
  -- leave the key alone in one of the rounds between the read and the swap, the loop ends within its
  -- rounds, by a swap or by an error that it logs, if a confirmed read tells what this node stores and
  -- the client reports what a swap did.
  pub racing_ends :
      (reports : Reports (machine_of n) n.submit) (others : ℕ → W → W) (fuel i : ℕ) (w : W)
      → ((j : ℕ) (v : W) → HoldsPlain n views_key v → HoldsPlain n views_key (others j v))
      → ((v : W) → stored n (others i v) views_key ≡ stored n v views_key)
      → HoldsPlain n views_key w
      → i < fuel
      → (racing n others fuel w).1 ≡ done tt
  unfolding racing
  racing_ends reports others fuel i w keeps quiet held below =
      let (end, ended) =
        increment_ends laws n reports views_key (confirmed_step n views_key)
          (confirmed_step-ReadsPlain views_key) others fuel i w keeps quiet held below in
      ap (λ o. (left_by w o).1) ended
