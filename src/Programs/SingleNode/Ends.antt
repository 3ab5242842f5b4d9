-- ===== src/Programs/SingleNode/Ends.antt =====
-- `main` of examples/single-node/single_node.rs: that its assertions hold, that its loop ends, and
-- what the counter holds then.
use d_lmdb.Base.{
  ℕ, zero, suc, ◌<◌, ◌≡◌, ◌≢◌, refl, ap, ◌∙◌, Bool, true, false, not, if◌then◌else◌, Option, none,
  some, ok, Result-cases, inl, inr,
}
use d_lmdb.Bytes.{Bytes, ascii}
use d_lmdb.Bytes.Order.{bytes_eq_refl}
use d_lmdb.Lmdb.{Lmdb, IsLawful}
use d_lmdb.Text.{decimal}
use d_lmdb.Text.Number.{parse_u64, checked_value}
use d_lmdb.Wal.{Codec}
use d_lmdb.Wire.{encode_raw}
use d_lmdb.Host.{Host}
use d_lmdb.Store.{last}
use d_lmdb.Machine.Apply.Spec.{KeyValues, update}
use d_lmdb.Db.Write.Effect.{Commits, visible-db_put, db_put-reads}
use d_lmdb.Db.Write.Swap.{Reports, visible-db_delete}
use d_lmdb.Open.Cluster.{Cluster}
use d_lmdb.Programs.{Node, IsNode, get_step, done, panicked, running}
use d_lmdb.Programs.Counter.{next_of, number_of, round, increment, continue}
use d_lmdb.Programs.Counter.Loop.{round-Swapped, quiet_round, was_taken}
use d_lmdb.Programs.Counter.Round.{machine_of, stored, get_step-ReadsPlain}
use d_lmdb.Programs.Ensures.{
  Ensures, Anything, bind-Ensures, attempted-Ensures, Ensures-ends, Ensures-done, bind_step,
  bind_attempted, bind_asserted, Shows, get_step-Shows, exists_step-Shows,
}
use d_lmdb.Programs.Shared.{user_1, user_2, views_key, putting, deleting, closing}
use d_lmdb.Programs.SingleNode.{counting, second_page, writing, browsing, single_node}

next_of_1000 : next_of (number_of (some (ascii "1000"))) ≡ ascii "1001"
next_of_1000 = unfold parse_u64 checked_value decimal in refl

swapped_key :
    (b : Bool) (f : KeyValues) (k : Bytes) (v : Option Bytes)
    → b ≡ true
    → (if b then update f k v else f) k ≡ v
swapped_key true f k v h = rw (bytes_eq_refl k)
swapped_key false f k v h = cc

-- what the counter's key stores
abbrev pub Counts : {W : Type 0} {L : Lmdb} → Node W L → Bytes → W → Type 0
Counts n text w = stored n w views_key ≡ some (encode_raw text)

module _ {W : Type 0} {L : Lmdb} (laws : IsLawful L) (n : Node W L) (is : IsNode n)
    (commits : Commits (machine_of n) n.submit) (reports : Reports (machine_of n) n.submit) where
  -- no other client swaps, so the first round ends the loop
  counting-Ensures :
      (fuel : ℕ) (w : W)
      → Counts n (ascii "1000") w
      → Ensures (λ w next. Counts n (ascii "1001") w) (counting n (suc fuel) w)
  unfolding counting increment
  counting-Ensures fuel w held =
      let plain = get_step-ReadsPlain laws n is views_key in
      elim (Result-cases (round n views_key (get_step n views_key) (λ v. v) w).1) [
        | inr (x, e) ↦ rw (e, continue) tt
        | inl (none, e) ↦ absurd (
            quiet_round laws n reports views_key _ plain (λ i v. v) fuel w (λ v. refl)
              (some (ascii "1000"), held) e)
        | inl (some next, e) ↦
            let (unread, (b, told, answer, left)) =
              round-Swapped laws n reports views_key _ plain (λ v. v) w (some (ascii "1000")) held
                e in
            let (taken, same) = was_taken b _ next answer in
            rw (e, continue)
              (ap (λ f. f views_key) left
                ∙ swapped_key b _ views_key _ taken
                ∙ ap (λ t. some (encode_raw t)) next_of_1000)
      ]

  after_put :
      (v : Bytes) (w : W) (a : Unit {0})
      → (putting n user_2 v w).1 ≡ ok a
      → Shows n user_2 (some v) (putting n user_2 v w).0
  after_put v w a h t le =
      visible-db_put laws (machine_of n) n.submit commits (n.handle w) user_2 v w t h

  after_delete :
      (w : W) (a : Unit {0})
      → (deleting n user_2 w).1 ≡ ok a
      → Shows n user_2 none (deleting n user_2 w).0
  after_delete w a h t le =
      visible-db_delete laws (machine_of n) n.submit commits (n.handle w) user_2 w t h

  abbrev Counted : W → Unit {0} → Type 0
  Counted w u = Counts n (ascii "1001") w

  writing-Ensures : (fuel : ℕ) (w : W) → Ensures Counted (writing n (suc fuel) w)
  unfolding writing
  writing-Ensures fuel w = bind_attempted Counted _ _ w λ p1 w.
      bind_step Counted (λ w a. Shows n user_2 (some (ascii "bob")) w) _ _ w
        (after_put (ascii "bob") w)
        λ p2 w shows.
          bind_step Counted (λ w a. Shows n user_2 (some (ascii "bob")) w) _ _ w
            (λ a h. get_step-Shows laws n is user_1 user_2 _ w shows h)
            λ alice w shows.
              bind_step Counted (λ w b. b ≡ true) _ _ w
                (λ b h. exists_step-Shows laws n is user_2 _ w shows h)
                λ there w yes. bind_asserted Counted there _ w yes λ first w.
                  bind_step Counted (λ w a. Shows n user_2 none w) _ _ w (after_delete w)
                    λ deleted w shows.
                      bind_step Counted (λ w b. not b ≡ true) _ _ w
                        (λ b h. ap not (exists_step-Shows laws n is user_2 _ w shows h))
                        λ still w no. bind_asserted Counted (not still) _ w no λ second w.
                          bind_attempted Counted _ _ w λ renamed w.
                            bind_attempted Counted _ _ w λ alice_v2 w.
                              bind_step Counted (λ w a. Counts n (ascii "1000") w) _ _ w
                                (λ a h.
                                  db_put-reads laws (machine_of n) n.submit commits (n.handle w)
                                    views_key (ascii "1000") w h)
                                λ reset w held.
                                  bind-Ensures (λ w next. Counts n (ascii "1001") w) Counted _ _ w
                                    (counting-Ensures fuel w held) λ next w held. held

  second_page-Ensures : (o : Option (Bytes × Bytes)) (w : W) → Ensures Anything (second_page n o w)
  second_page-Ensures none w = tt
  second_page-Ensures (some (k, v)) w = bind_attempted Anything _ _ w λ page2 w. tt

  browsing-Ensures : (w : W) → Ensures Anything (browsing n w)
  unfolding browsing
  browsing-Ensures w = bind_attempted Anything _ _ w λ session w.
      bind_attempted Anything _ _ w λ acquired w. bind_attempted Anything _ _ w λ cached w.
        bind_attempted Anything _ _ w λ carol w. bind_attempted Anything _ _ w λ users w.
          bind_attempted Anything _ _ w λ page1 w.
            bind-Ensures Anything Anything _ _ w (second_page-Ensures (last page1.entries) w)
              λ page2 w h.
                bind_attempted Anything _ _ w λ range w. bind_attempted Anything _ _ w λ views w. tt

  -- With one round at least for the counter's loop, where nobody else writes, and the client applies
  -- here what it says succeeded and reports what a swap did: if sections 1 to 3 of `main` end without
  -- an error, the counter, which they had put to 1000, holds 1001.
  pub writing-Counts :
      (fuel : ℕ) (w : W)
      → 0 < fuel
      → (writing n fuel w).1 ≡ done tt
      → Counts n (ascii "1001") (writing n fuel w).0
  writing-Counts zero w below h = elim below [ ]
  writing-Counts (suc fuel) w below h =
      Ensures-done Counted (writing n (suc fuel) w) tt (writing-Ensures fuel w) h

  module _ (host : Host W L) (C : Codec) (cluster : Cluster host) where
    single_node-Ensures :
        (fuel : ℕ) (w : W) → Ensures Anything (single_node host C cluster n (suc fuel) w)
    unfolding single_node
    single_node-Ensures fuel w = bind_attempted Anything _ _ w λ o w.
        bind-Ensures Anything Anything _ _ w tt λ u w held. bind_attempted Anything _ _ w λ ready w.
          bind-Ensures Counted Anything _ _ w (writing-Ensures fuel w) λ u w counted.
            bind-Ensures Anything Anything _ _ w (browsing-Ensures w)
              λ u w browsed. attempted-Ensures Anything (closing host C n o) w (λ a h. tt)

    -- With one round at least for the counter's loop, where nobody else writes, and the client applies
    -- here what it says succeeded and reports what a swap did, the whole of `main` comes to its end,
    -- with success or with the error of a call: no assertion panics, and the loop does not run on.
    pub single_node_ends :
        (fuel : ℕ) (w : W)
        → 0 < fuel
        → ((single_node host C cluster n fuel w).1 ≢ panicked)
          × ((single_node host C cluster n fuel w).1 ≢ running)
    single_node_ends zero w h = elim h [ ]
    single_node_ends (suc fuel) w h =
        Ensures-ends Anything (single_node host C cluster n (suc fuel) w)
          (single_node-Ensures fuel w)
