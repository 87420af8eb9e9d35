-- ===== src/Batch/Laws/Steps.antt =====
-- The steps of a node's token ledger: charges, batches, rejections and commits, of the domain ledger
-- and of the token ledger itself, and catch-up.
use token_plugin.Prelude.{
  some, true, false, ℕ, suc, ◌+◌, ◌≤◌, ◌≡◌, ◌≢◌, List, [], ◌∷◌, ◌++◌, length, Option,
}
use token_plugin.Text.{Text}
use token_plugin.Errors.{ok}
use token_plugin.Amounts.Pairs.{IsDistinct}
use token_plugin.Batch.{Mark, Plenum, Node, DomainTxn, encoded, current_mark, seq_nos_with_fees}
use token_plugin.Batch.TrackerHandler
use token_plugin.Batch.UtxoHandler
use token_plugin.Batch.Wiring.{committed_mark, register_trackers, run_origin, post_catchup_complete}
use token_plugin.Batch.FeeHandler.{post_batch_applied, post_batch_rejected, commit_batch}
use token_plugin.Batch.Reply.{numbers}
use token_plugin.Batch.Laws.{IsPlenum, Follows, Pending, newest}
use token_plugin.Batch.Laws.Rejected.{dropped}

module _ (p : Plenum) (laws : IsPlenum p) where
  -- What a charge of fees does: one transaction more, which changes both roots, and one more counted.
  pub record Charged (n n' : Node p) (m : Mark) : Type 0 where
    pub same_marks : laws.marks n'.token_tracker ≡ laws.marks n.token_tracker
    pub same_batches : laws.batches n'.utxo_cache ≡ laws.batches n.utxo_cache
    pub same_committed : laws.committed_size n'.token_ledger ≡ laws.committed_size n.token_ledger
    pub one_more : p.uncommitted_size n'.token_ledger ≡ suc (p.uncommitted_size n.token_ledger)
    pub counted : n'.fees_tracker.fees_in_current_batch ≡ suc n.fees_tracker.fees_in_current_batch
    pub kept :
        (j : ℕ)
        → j ≤ p.uncommitted_size n.token_ledger
        → laws.history n'.token_ledger j ≡ laws.history n.token_ledger j
    pub new_state : p.head_hash n'.token_state ≢ m.state_root
    pub new_root : p.uncommitted_root_hash n'.token_ledger ≢ m.txn_root

  -- What plenum does in a batch of the token ledger: more transactions, and the roots that they give.
  pub record Transferred (n n' : Node p) (m : Mark) : Type 0 where
    pub same_marks : laws.marks n'.token_tracker ≡ laws.marks n.token_tracker
    pub same_batches : laws.batches n'.utxo_cache ≡ laws.batches n.utxo_cache
    pub same_committed : laws.committed_size n'.token_ledger ≡ laws.committed_size n.token_ledger
    pub same_fees : n'.fees_tracker ≡ n.fees_tracker
    pub kept :
        (j : ℕ)
        → j ≤ p.uncommitted_size n.token_ledger
        → laws.history n'.token_ledger j ≡ laws.history n.token_ledger j
    pub current : Follows m (current_mark p n')

  -- Nothing is uncommitted.
  pub record Settled (n : Node p) : Type 0 where
    pub same_size : p.uncommitted_size n.token_ledger ≡ p.ledger_size n.token_ledger
    pub same_head : p.head_hash n.token_state ≡ p.committed_head_hash n.token_state
    pub no_batches : laws.batches n.utxo_cache ≡ []
    pub no_fees : n.fees_tracker.fees_in_current_batch ≡ 0

  -- The states of a node that can be reached, each with the last committed batch and those since: when
  -- the plugin is integrated, when catch-up has written to the ledger, and by the steps of batches of
  -- the domain ledger and of the token ledger.
  pub data Reach : Node p → Mark → List Pending → Type 0 where
    integrated :
        (n : Node p)
        → Settled n
        → n.token_tracker ≡ (register_trackers p n.token_state n.token_ledger).1
        → Reach n (committed_mark p n.token_state n.token_ledger) []
    caught_up :
        (n n' : Node p) (b : Mark) (origin_clb : Option (Node p → Node p))
        → Reach n b []
        → Settled (run_origin p origin_clb n')
        → laws.marks (run_origin p origin_clb n').token_tracker ≡ laws.marks n.token_tracker
        → Reach
            (post_catchup_complete p origin_clb n')
            (committed_mark p
              (run_origin p origin_clb n').token_state
              (run_origin p origin_clb n').token_ledger)
            []
    charged :
        (n n' : Node p) (b : Mark) (r : List Pending)
        → Reach n b r
        → Charged n n' (newest b r)
        → Reach n' b r
    applied :
        (n : Node p) (b : Mark) (r : List Pending)
        → Reach n b r
        → Reach
            (post_batch_applied p n)
            b
            (record { mark = current_mark p n; of_token = false } ∷ r)
    token_applied :
        (n n' : Node p) (b : Mark) (r : List Pending)
        → Reach n b r
        → n.fees_tracker.fees_in_current_batch ≡ 0
        → Transferred n n' (newest b r)
        → Reach
            (TrackerHandler.post_batch_applied p
              (UtxoHandler.post_batch_applied p (p.head_hash n'.token_state) n'))
            b
            (record { mark = current_mark p n'; of_token = true } ∷ r)
    rejected :
        (n n' : Node p) (b : Mark) (x : Pending) (r : List Pending)
        → Reach n b (x ∷ r)
        → n.fees_tracker.fees_in_current_batch ≡ 0
        → x.of_token ≡ false
        → post_batch_rejected p n ≡ (ok tt, n')
        → Reach n' b r
    token_rejected :
        (n n' n'' : Node p) (b : Mark) (x : Pending) (r : List Pending)
        → Reach n b (x ∷ r)
        → n.fees_tracker.fees_in_current_batch ≡ 0
        → x.of_token ≡ true
        → UtxoHandler.post_batch_rejected p (dropped p laws (newest b r) x.mark n) ≡ (ok tt, n')
        → TrackerHandler.post_batch_rejected p n' ≡ (ok tt, n'')
        → Reach n'' b r
    committed :
        (n n' : Node p) (b : Mark) (x : Pending) (r : List Pending) (ts : List DomainTxn)
        (reply : List (DomainTxn × Option p.Txn))
        → Reach n b (r ++ x ∷ [])
        → n.fees_tracker.fees_in_current_batch ≡ 0
        → x.of_token ≡ false
        → IsDistinct (numbers ts)
        → b.size + length (seq_nos_with_fees n.fees_tracker ts) ≡ x.mark.size
        → commit_batch p ts n ≡ (ok reply, n')
        → Reach n' x.mark r
    token_committed :
        (n n' n'' : Node p) (b : Mark) (x : Pending) (r : List Pending) (k : ℕ) (state_root : Text)
        (txns : List p.Txn) (l : p.TokenLedger) (s : p.TokenState)
        → Reach n b (r ++ x ∷ [])
        → n.fees_tracker.fees_in_current_batch ≡ 0
        → x.of_token ≡ true
        → b.size + k ≡ x.mark.size
        → p.b58decode state_root ≡ some x.mark.state_root
        → p.commit_txns n.token_ledger n.token_state k x.mark.state_root x.mark.txn_root
          ≡ ok (txns, l, s)
        → UtxoHandler.commit_batch p
            (encoded state_root)
            (record n { token_ledger = l; token_state = s })
          ≡ (ok tt, n')
        → TrackerHandler.commit_batch p n' ≡ (ok tt, n'')
        → Reach n'' x.mark r
