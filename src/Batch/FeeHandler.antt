-- ===== src/Batch/FeeHandler.antt =====
-- `DomainFeeBatchHandler` of
-- sovtokenfees/sovtokenfees/req_handlers/batch_handlers/fee_batch_handler.py: what the batches of the
-- domain ledger do to the token ledger, whose transactions are the fees. The fields of the fake batch
-- for the commit are plenum's, but for its roots and its count.
use token_plugin.Prelude.{
  ℕ, Bool, ◌||◌, Option, none, List, [], ◌∷◌, ◌==◌, ltb, if◌then◌else◌, length,
}
use token_plugin.Text.{text_eq}
use token_plugin.Errors.{ok, err}
use token_plugin.Errors.Exec.{Exec}
use token_plugin.Batch.{
  Plenum, Node, Tracked, DomainTxn, bytes, current_mark, seq_nos_with_fees, add_fees,
  commit_to_utxo_cache,
}

module _ (p : Plenum) where
  -- `self._fees_tracker.fees_in_current_batch = 0`
  unfoldable pub reset_fees : Node p → Node p
  reset_fees n = record n { fees_tracker = record (n.fees_tracker) { fees_in_current_batch = 0 } }

  unfoldable pub post_batch_applied : Node p → Node p
  unfolding reset_fees
  post_batch_applied n =
      let tracked = record n { token_tracker = p.track n.token_tracker (current_mark p n) } in
      if ltb 0 n.fees_tracker.fees_in_current_batch
      then reset_fees (record tracked {
        utxo_cache = p.create_batch_from_current n.utxo_cache (p.head_hash n.token_state);
      })
      else tracked

  -- The early return of `post_batch_rejected`.
  unfoldable pub is_unchanged : Tracked → Node p → Bool
  is_unchanged m n =
      m.txn_count == 0
      || text_eq (p.uncommitted_root_hash n.token_ledger) m.txn_root
      || text_eq (p.head_hash n.token_state) m.state_root

  -- The rest of it, with what the tracker returned.
  unfoldable pub revert : Tracked → Exec (Node p) (Unit {0})
  revert m n =
      let reverted = record n {
        token_state = p.revert_to_head n.token_state m.state_root;
        token_ledger = p.discard_txns n.token_ledger m.txn_count;
      } in
      elim (p.reject_batch n.utxo_cache) [
        | ok c ↦ (ok tt, record reverted { utxo_cache = c })
        | err e ↦ (err e, reverted)
      ]

  unfoldable pub post_batch_rejected : Exec (Node p) (Unit {0})
  unfolding is_unchanged revert
  post_batch_rejected n = elim (p.untrack n.token_tracker) [
    | err e ↦ (err e, n)
    | ok (m, t) ↦
        let n' = record n { token_tracker = t } in
        if is_unchanged m n' then (ok tt, n') else revert m n'
  ]

  -- The reply without fees.
  unfoldable pub without_fees : List DomainTxn → List (DomainTxn × Option p.Txn)
  without_fees [] = []
  without_fees (t ∷ ts) = (t, none) ∷ without_fees ts

  -- The commit of the fees transactions of a batch, and the reply.
  unfoldable pub commit_fees :
      Tracked → List ℕ → List DomainTxn → Exec (Node p) (List (DomainTxn × Option p.Txn))
  unfolding reset_fees
  commit_fees m seq_nos txns n =
      elim (p.commit_txns n.token_ledger n.token_state (length seq_nos) m.state_root m.txn_root) [
        | err e ↦ (err e, n)
        | ok (token_txns, ledger, state) ↦
            let committed = record n { token_state = state; token_ledger = ledger } in
            elim (commit_to_utxo_cache p n.utxo_cache (bytes m.state_root)) [
              | err e ↦ (err e, committed)
              | ok c ↦
                  let cached = record committed { utxo_cache = c } in
                  elim (add_fees seq_nos token_txns 0 txns) [
                    | err e ↦ (err e, cached)
                    | ok reply ↦ (ok reply, reset_fees cached)
                  ]
            ]
      ]

  unfoldable pub commit_batch : List DomainTxn → Exec (Node p) (List (DomainTxn × Option p.Txn))
  unfolding commit_fees without_fees
  commit_batch txns n = elim (p.track_commit n.token_tracker) [
    | err e ↦ (err e, n)
    | ok (m, t) ↦
        let n' = record n { token_tracker = t } in
        let seq_nos = seq_nos_with_fees n.fees_tracker txns in
        if ltb 0 (length seq_nos)
        then commit_fees m seq_nos txns n'
        else (ok (without_fees txns), n')
  ]
