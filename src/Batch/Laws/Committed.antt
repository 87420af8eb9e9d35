-- ===== src/Batch/Laws/Committed.antt =====
-- A batch is committed: the fees of its transactions go to the committed part of the ledger and into
-- the reply, and the objects agree on the batches after it.
use mathlib.Core.Path.{subst}
use token_plugin.Prelude.{
  ℕ, ◌+◌, ◌<◌, ◌≡◌, refl, true, false, Option, some, List, [], ◌∷◌, ◌++◌, arith, ltb, length,
  if◌then◌else◌, Bool-cases, inl, inr,
}
use token_plugin.Text.{Text, text_eq_refl}
use token_plugin.Errors.{ok}
use token_plugin.Amounts.Pairs.{IsDistinct}
use token_plugin.Batch.{
  StateRoot, encoded, Mark, Plenum, Node, Tracked, DomainTxn, bytes, root_bytes, same_root,
  commit_to_utxo_cache, seq_nos_with_fees, add_fees,
}
use token_plugin.Batch.FeeHandler.{commit_batch, commit_fees, without_fees, reset_fees}
use token_plugin.Batch.Reply.{numbers, Assigned, reply_Assigned}
use token_plugin.Batch.TrackerHandler
use token_plugin.Batch.UtxoHandler
use token_plugin.Batch.Laws.{IsPlenum, InStep, Pending, marks_of, cache_roots}
use token_plugin.Batch.Laws.Oldest.{
  free-InStep, cached_first, committed-InStep, oldest_tracked, oldest_there, oldest_root,
}

module _ (p : Plenum) where
  -- How the handlers run.
  commit_to_utxo_cache_run :
      (c c' : p.UtxoCache) (state_root : StateRoot) (h : Text)
      → root_bytes p state_root ≡ ok h
      → p.first_batch_idr c ≡ some h
      → p.commit_batch c ≡ ok c'
      → commit_to_utxo_cache p c state_root ≡ ok c'
  unfolding commit_to_utxo_cache same_root
  commit_to_utxo_cache_run c c' state_root h read first committed =
      rw (read, commit_to_utxo_cache) (rw first (rw (text_eq_refl h) committed))

  bytes_read : (h : Text) → root_bytes p (bytes h) ≡ ok h
  unfolding root_bytes
  bytes_read h = refl

  encoded_read : (e h : Text) → p.b58decode e ≡ some h → root_bytes p (encoded e) ≡ ok h
  unfolding root_bytes
  encoded_read e h decoded = rw decoded refl

  -- Without transactions that are noted.
  free_run :
      (n : Node p) (ts : List DomainTxn) (m : Tracked) (t : p.TokenTracker)
      → p.track_commit n.token_tracker ≡ ok (m, t)
      → length (seq_nos_with_fees n.fees_tracker ts) ≡ 0
      → commit_batch p ts n ≡ (ok (without_fees p ts), record n { token_tracker = t })
  unfolding commit_batch
  free_run n ts m t tracked free = rw (tracked, commit_batch) (rw free refl)

  fees_run :
      (n : Node p) (ts : List DomainTxn) (m : Tracked) (t : p.TokenTracker) (txns : List p.Txn)
      (l : p.TokenLedger) (s : p.TokenState) (c : p.UtxoCache)
      (reply : List (DomainTxn × Option p.Txn))
      → p.track_commit n.token_tracker ≡ ok (m, t)
      → 0 < length (seq_nos_with_fees n.fees_tracker ts)
      → p.commit_txns n.token_ledger n.token_state
          (length (seq_nos_with_fees n.fees_tracker ts))
          m.state_root
          m.txn_root
        ≡ ok (txns, l, s)
      → commit_to_utxo_cache p n.utxo_cache (bytes m.state_root) ≡ ok c
      → add_fees (seq_nos_with_fees n.fees_tracker ts) txns 0 ts ≡ ok reply
      → commit_batch p ts n ≡ (
        ok reply,
        reset_fees p
            (record n { token_tracker = t; token_ledger = l; token_state = s; utxo_cache = c }),
      )
  unfolding commit_batch commit_fees
  fees_run n ts m t txns l s c reply tracked some_fees committed cached added =
      let more : ltb 0 (length (seq_nos_with_fees n.fees_tracker ts)) ≡ true =
        ground (arith, some_fees) in
      rw (tracked, commit_batch) (rw more (rw (committed, commit_fees) (rw cached (rw added refl))))

module _ (p : Plenum) (laws : IsPlenum p) where
  without_fees_lem :
      (token_txns : List p.Txn) (ts : List DomainTxn)
      → add_fees [] token_txns 0 ts ≡ ok (without_fees p ts)
  unfolding add_fees without_fees
  without_fees_lem token_txns [] = refl
  without_fees_lem token_txns (t ∷ ts) = rw (without_fees_lem token_txns ts) refl

  without_fees_unique :
      (seq_nos : List ℕ) (token_txns : List p.Txn) (ts : List DomainTxn)
      (reply : List (DomainTxn × Option p.Txn))
      → length seq_nos ≡ 0
      → add_fees seq_nos token_txns 0 ts ≡ ok reply
      → reply ≡ without_fees p ts
  without_fees_unique [] token_txns ts reply free run = cc (run, without_fees_lem token_txns ts)
  without_fees_unique (k ∷ seq_nos) token_txns ts reply free run = absurd (omega (arith, free))

  -- From objects that agree, with no fees charged since, and when the transactions of the batch have
  -- different numbers and as many of them are noted as the token ledger grew by, the commit of the
  -- oldest batch, which is of the domain ledger, returns. The reply has the transactions of the batch,
  -- of which just the noted ones have a fees transaction: the oldest of the token ledger that were
  -- not committed, in their order. The token state is committed to the state root of the batch if there
  -- are noted transactions, and else its committed root is as it was. The objects agree on the batches after it.
  pub commit_batch-InStep :
      (n : Node p) (b : Mark) (x : Pending) (r : List Pending) (ts : List DomainTxn)
      → InStep p laws n b (r ++ x ∷ [])
      → n.fees_tracker.fees_in_current_batch ≡ 0
      → x.of_token ≡ false
      → IsDistinct (numbers ts)
      → b.size + length (seq_nos_with_fees n.fees_tracker ts) ≡ x.mark.size
      → (reply : List (DomainTxn × Option p.Txn)) × (n' : Node p) × (commit_batch p ts n
          ≡ (ok reply, n'))
        × Assigned n.fees_tracker ts
            (laws.oldest n.token_ledger (length (seq_nos_with_fees n.fees_tracker ts)))
            reply
        × (p.committed_head_hash n'.token_state ≡ (
            if ltb 0 (length (seq_nos_with_fees n.fees_tracker ts))
            then x.mark.state_root
            else p.committed_head_hash n.token_state))
        × InStep p laws n' x.mark r
  unfolding reset_fees
  commit_batch-InStep n b x r ts h rest domain distinct counted =
      let seq_nos = seq_nos_with_fees n.fees_tracker ts in
      let (t, tracked, marked) =
        laws.track_committed n.token_tracker b x.mark (marks_of r)
          (oldest_tracked p laws n b x r h) in
      let (l, s, committed, many, size, grown, history, head, at_root) =
        laws.txns_committed n.token_ledger n.token_state (length seq_nos) x.mark.state_root
          x.mark.txn_root (oldest_there p laws n b x r (length seq_nos) h counted)
          (oldest_root p laws n b x r (length seq_nos) h counted) in
      let (reply, added, assigned) =
        reply_Assigned n.fees_tracker ts (laws.oldest n.token_ledger (length seq_nos)) distinct
          many in
      elim (Bool-cases (ltb 0 (length seq_nos))) [
        | inl more ↦
            let larger : ltb b.size x.mark.size ≡ true = ground (arith, more, counted) in
            let (c, first, popped, cached) =
              laws.batch_committed n.utxo_cache x.mark.state_root (cache_roots x.mark r)
                (cached_first p laws n b x r h (rw domain (rw larger refl))) in
            (
              reply,
              _,
              fees_run p n ts _ t _ l s c reply tracked (ground (arith, more)) committed
                  (commit_to_utxo_cache_run p n.utxo_cache c _ x.mark.state_root
                    (bytes_read p x.mark.state_root) first popped)
                  added,
              assigned,
              rw more at_root,
              committed-InStep p laws n b x r t l s c _ h rest refl marked size
                  (omega (arith, grown, h.committed, counted)) history head cached,
            )
        | inr none_noted ↦
            let free : length seq_nos ≡ 0 = ground (arith, none_noted) in
            (
              without_fees p ts,
              record n { token_tracker = t },
              free_run p n ts _ t tracked free,
              subst
                  (λ y. Assigned n.fees_tracker ts (laws.oldest n.token_ledger (length seq_nos)) y)
                  (without_fees_unique seq_nos _ ts reply free added) assigned,
              rw none_noted refl,
              free-InStep p laws n b x r t h domain marked (omega (arith, free, counted)),
            )
      ]

  -- plenum's commit of a batch of the token ledger, and then both of its handlers.
  pub token_committed-InStep :
      (n : Node p) (b : Mark) (x : Pending) (r : List Pending) (k : ℕ) (state_root : Text)
      → InStep p laws n b (r ++ x ∷ [])
      → n.fees_tracker.fees_in_current_batch ≡ 0
      → x.of_token ≡ true
      → b.size + k ≡ x.mark.size
      → p.b58decode state_root ≡ some x.mark.state_root
      → (l : p.TokenLedger) × (s : p.TokenState) × (n' n'' : Node p) × (p.commit_txns n.token_ledger
            n.token_state k x.mark.state_root x.mark.txn_root
          ≡ ok (laws.oldest n.token_ledger k, l, s))
        × (UtxoHandler.commit_batch p
              (encoded state_root)
              (record n { token_ledger = l; token_state = s })
            ≡ (ok tt, n'))
        × (TrackerHandler.commit_batch p n' ≡ (ok tt, n''))
        × InStep p laws n'' x.mark r
  unfolding UtxoHandler.commit_batch TrackerHandler.commit_batch
  token_committed-InStep n b x r k state_root h rest token counted decoded =
      let (t, tracked, marked) =
        laws.track_committed n.token_tracker b x.mark (marks_of r)
          (oldest_tracked p laws n b x r h) in
      let (l, s, committed, many, size, grown, history, head, at_root) =
        laws.txns_committed n.token_ledger n.token_state k x.mark.state_root x.mark.txn_root
          (oldest_there p laws n b x r k h counted) (oldest_root p laws n b x r k h counted) in
      let (c, first, popped, cached) =
        laws.batch_committed n.utxo_cache x.mark.state_root (cache_roots x.mark r)
          (cached_first p laws n b x r h (rw token refl)) in
      let run =
        commit_to_utxo_cache_run p n.utxo_cache c (encoded state_root) x.mark.state_root
          (encoded_read p state_root x.mark.state_root decoded) first popped in
      (
        l,
        s,
        record n { token_ledger = l; token_state = s; utxo_cache = c },
        record n { token_ledger = l; token_state = s; utxo_cache = c; token_tracker = t },
        committed,
        rw (run, UtxoHandler.commit_batch) refl,
        rw (tracked, TrackerHandler.commit_batch) refl,
        committed-InStep p laws n b x r t l s c n.fees_tracker h rest rest marked size
            (omega (arith, grown, h.committed, counted)) history head cached,
      )
