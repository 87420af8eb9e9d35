-- ===== src/Batch/Laws/Reach.antt =====
-- What holds in every state that the steps lead to.
use mathlib.Core.Path.{subst}
use token_plugin.Prelude.{true, ℕ, ◌≤◌, ◌≡◌, sym, ap, ◌∙◌, List, [], ◌∷◌, ◌++◌, arith, All}
use token_plugin.Fees.Domain.{Tracker}
use token_plugin.Batch.{Mark, Plenum, Node, current_mark}
use token_plugin.Batch.TrackerHandler
use token_plugin.Batch.UtxoHandler
use token_plugin.Batch.Wiring.{
  committed_mark, register_trackers, run_origin, reset_tracker, post_catchup_complete,
}
use token_plugin.Batch.Laws.{IsPlenum, InStep, Rooted, Pending, marks_of, newest}
use token_plugin.Batch.Laws.Applied.{post_batch_applied-InStep, token_applied-InStep}
use token_plugin.Batch.Laws.Rejected.{post_batch_rejected-InStep, token_rejected-InStep}
use token_plugin.Batch.Laws.Committed.{commit_batch-InStep, token_committed-InStep}
use token_plugin.Batch.Laws.Marks.{Chained-base_le, Chained-size_le}
use token_plugin.Batch.Laws.Steps.{
  Charged, Transferred, Settled, Reach, integrated, caught_up, charged, applied, token_applied,
  rejected, token_rejected, committed, token_committed,
}

module _ (p : Plenum) (laws : IsPlenum p) where
  Rooted-after :
      (n n' : Node p) (k : ℕ) (r : List Mark)
      → ((j : ℕ)
          → j ≤ p.uncommitted_size n.token_ledger
          → laws.history n'.token_ledger j ≡ laws.history n.token_ledger j)
      → k ≤ p.uncommitted_size n.token_ledger
      → All (λ m. m.size ≤ k) r
      → All (Rooted p laws n.token_ledger) r
      → All (Rooted p laws n'.token_ledger) r
  Rooted-after n n' k [] same h s a = tt
  Rooted-after n n' k (m ∷ r) same h s a =
      (same m.size (omega (arith, h, s.0)) ∙ a.0, Rooted-after n n' k r same h s.1 a.1)

  pub Charged-InStep :
      (n n' : Node p) (b : Mark) (r : List Pending)
      → InStep p laws n b r
      → Charged p laws n n' (newest b r)
      → InStep p laws n' b r
  unfolding current_mark
  Charged-InStep n n' b r h c =
      let below : (newest b r).size ≤ p.uncommitted_size n.token_ledger = omega (arith, h.sized) in
      record {
        tracked = c.same_marks ∙ h.tracked;
        sized = omega (arith, c.one_more, h.sized, c.counted);
        committed = c.same_committed ∙ h.committed;
        chained = h.chained;
        rooted = (
          c.kept b.size (omega (arith, below, Chained-base_le b r h.chained)) ∙ h.rooted.0,
          Rooted-after n n' (newest b r).size (marks_of r) c.kept below
              (Chained-size_le b r h.chained) h.rooted.1,
        );
        cached = c.same_batches ∙ h.cached;
        current = record {
          grows = omega (arith, c.one_more, below);
          stays = λ e. absurd (omega (arith, c.one_more, below, e));
          state_moves = λ lt. c.new_state;
          root_moves = λ lt. c.new_root;
        };
      }

  Transferred-InStep :
      (n n' : Node p) (b : Mark) (r : List Pending)
      → InStep p laws n b r
      → n.fees_tracker.fees_in_current_batch ≡ 0
      → Transferred p laws n n' (newest b r)
      → InStep p laws
          (TrackerHandler.post_batch_applied p
            (UtxoHandler.post_batch_applied p (p.head_hash n'.token_state) n'))
          b
          (record { mark = current_mark p n'; of_token = true } ∷ r)
  Transferred-InStep n n' b r h rest c =
      let below : (newest b r).size ≤ p.uncommitted_size n.token_ledger = omega (arith, h.sized) in
      token_applied-InStep p laws n' b r (c.same_committed ∙ h.committed) h.chained
        (
          c.kept b.size (omega (arith, below, Chained-base_le b r h.chained)) ∙ h.rooted.0,
          Rooted-after n n' (newest b r).size (marks_of r) c.kept below
              (Chained-size_le b r h.chained) h.rooted.1,
        )
        c.current (c.same_marks ∙ h.tracked) (c.same_batches ∙ h.cached)
        (ap (λ (t : Tracker). t.fees_in_current_batch) c.same_fees ∙ rest)

  -- With the tracker set to what is committed.
  Settled-InStep :
      (n : Node p) (t : p.TokenTracker)
      → Settled p laws n
      → laws.marks t ≡ (committed_mark p n.token_state n.token_ledger, [])
      → InStep p laws
          (record n { token_tracker = t })
          (committed_mark p n.token_state n.token_ledger)
          []
  unfolding committed_mark current_mark
  Settled-InStep n t settled marked = record {
    tracked = marked;
    sized = omega (arith, settled.same_size, settled.no_fees);
    committed = sym (laws.size-ledger n.token_ledger);
    chained = tt;
    rooted = (
      ap (laws.history n.token_ledger) (sym settled.same_size)
          ∙ sym (laws.root-history n.token_ledger),
      tt,
    );
    cached = settled.no_batches;
    current = record {
      grows = omega (arith, settled.same_size);
      stays = λ e. settled.same_head;
      state_moves = λ lt. absurd (omega (arith, settled.same_size, lt));
      root_moves = λ lt. absurd (omega (arith, settled.same_size, lt));
    };
  }

  integrated-InStep :
      (n : Node p)
      → Settled p laws n
      → n.token_tracker ≡ (register_trackers p n.token_state n.token_ledger).1
      → InStep p laws n (committed_mark p n.token_state n.token_ledger) []
  unfolding register_trackers
  integrated-InStep n settled registered =
      Settled-InStep n n.token_tracker settled
        (ap laws.marks registered ∙ laws.marks-new (committed_mark p n.token_state n.token_ledger))

  caught_up-InStep :
      (n : Node p) (b : Mark)
      → Settled p laws n
      → laws.marks n.token_tracker ≡ (b, [])
      → InStep p laws (reset_tracker p n) (committed_mark p n.token_state n.token_ledger) []
  unfolding reset_tracker
  caught_up-InStep n b settled tracked =
      Settled-InStep n _ settled
        (laws.marks-set n.token_tracker b (committed_mark p n.token_state n.token_ledger) tracked)

  -- In every state that integration and catch-up, charges, and the application, rejection and commit of
  -- batches of either ledger lead to, the objects agree: the tracker notes just the batches since the
  -- last commit, the ledger has their transactions and those of the fees charged since, and the cache
  -- has a batch for each of the token ledger and each of the domain ledger with fees.
  pub Reach-InStep :
      (n : Node p) (b : Mark) (r : List Pending) → Reach p laws n b r → InStep p laws n b r
  unfolding post_catchup_complete
  Reach-InStep _ _ _ (integrated n settled registered) = integrated-InStep n settled registered
  Reach-InStep _ _ _ (caught_up n n' b origin_clb s settled same) =
      caught_up-InStep (run_origin p origin_clb n') b settled
        (same ∙ (Reach-InStep n b [] s).tracked)
  Reach-InStep _ _ _ (charged n n' b r s c) = Charged-InStep n n' b r (Reach-InStep n b r s) c
  Reach-InStep _ _ _ (applied n b r s) =
      post_batch_applied-InStep p laws n b r (Reach-InStep n b r s)
  Reach-InStep _ _ _ (token_applied n n' b r s rest c) =
      Transferred-InStep n n' b r (Reach-InStep n b r s) rest c
  Reach-InStep _ _ _ (rejected n n' b x r s rest domain run) =
      let (n1, run1, h, notes) =
        post_batch_rejected-InStep p laws n b x r (Reach-InStep n b (x ∷ r) s) rest domain in
      subst (λ y. InStep p laws y b r) (cc (run, run1)) h
  Reach-InStep _ _ _ (token_rejected n n' n'' b x r s rest token run more) =
      let (n1, n2, run1, more1, h, notes) =
        token_rejected-InStep p laws n b x r (Reach-InStep n b (x ∷ r) s) rest token in
      subst (λ y. InStep p laws y b r) (cc (run, run1, more, more1)) h
  Reach-InStep _ _ _ (committed n n' b x r ts reply s rest domain distinct counted run) =
      let (reply1, n1, run1, assigned, root, h) =
        commit_batch-InStep p laws n b x r ts (Reach-InStep n b (r ++ x ∷ []) s) rest domain
          distinct counted in
      subst (λ y. InStep p laws y x.mark r) (cc (run, run1)) h
  Reach-InStep _ _ _
        (token_committed n n' n'' b x r k root txns l s reached rest token counted decoded taken run
          more) =
      let (l1, s1, n1, n2, taken1, run1, more1, h) =
        token_committed-InStep p laws n b x r k root (Reach-InStep n b (r ++ x ∷ []) reached) rest
          token counted decoded in
      subst (λ y. InStep p laws y x.mark r) (cc (taken, taken1, run, run1, more, more1)) h
