-- ===== src/Batch/Laws/Rejected.antt =====
-- A batch is rejected: the objects agree on the batches before it.
use token_plugin.Prelude.{
  ◌-◌, ◌<◌, ◌≡◌, ◌≢◌, refl, sym, ◌∙◌, true, ltb, false, List, ◌∷◌, arith, Bool-cases, inl, inr,
}
use token_plugin.Text.{Text, text_eq, text_eq→eq}
use token_plugin.Errors.{ok}
use token_plugin.Batch.{Mark, Plenum, Node, Tracked}
use token_plugin.Batch.FeeHandler.{post_batch_rejected, is_unchanged, revert}
use token_plugin.Batch.TrackerHandler
use token_plugin.Batch.UtxoHandler
use token_plugin.Batch.Laws.{IsPlenum, InStep, Pending, marks_of, newest, since, cache_roots}
use token_plugin.Batch.Laws.Newest.{head_of, root_of, kept-InStep, reverted-InStep}

text_ne : (s t : Text) → s ≢ t → text_eq s t ≡ false
text_ne s t ne = elim (Bool-cases (text_eq s t)) [
  | inl same ↦ absurd (ne (text_eq→eq s t same))
  | inr differs ↦ differs
]

module _ (p : Plenum) (laws : IsPlenum p) where
  -- What the tests of the handler see.
  is_unchanged_empty :
      (n : Node p) (b m : Mark) → m.size ≡ b.size → is_unchanged p (since b m) n ≡ true
  unfolding is_unchanged
  is_unchanged_empty n b m empty = rw empty (ground arith)

  is_unchanged_larger :
      (n : Node p) (b : Mark) (x : Pending) (r : List Pending) (t : p.TokenTracker)
      → InStep p laws n b (x ∷ r)
      → n.fees_tracker.fees_in_current_batch ≡ 0
      → (newest b r).size < x.mark.size
      → is_unchanged p (since (newest b r) x.mark) (record n { token_tracker = t }) ≡ false
  unfolding is_unchanged
  is_unchanged_larger n b x r t h rest larger =
      let root_differs : text_eq (p.uncommitted_root_hash n.token_ledger) (newest b r).txn_root
          ≡ false =
        text_ne _ _
          (λ e. (h.chained.0).root_moves larger (sym (root_of p laws n b x r h rest) ∙ e)) in
      let head_differs : text_eq (p.head_hash n.token_state) (newest b r).state_root ≡ false =
        text_ne _ _
          (λ e. (h.chained.0).state_moves larger (sym (head_of p laws n b x r h rest) ∙ e)) in
      ground (arith, root_differs, head_differs, larger)

  cached_larger :
      (n : Node p) (b : Mark) (x : Pending) (r : List Pending)
      → InStep p laws n b (x ∷ r)
      → x.of_token ≡ false
      → (newest b r).size < x.mark.size
      → laws.batches n.utxo_cache ≡ x.mark.state_root ∷ cache_roots b r
  cached_larger n b x r h domain larger =
      let more : ltb (newest b r).size x.mark.size ≡ true = ground (arith, larger) in
      h.cached ∙ rw domain (rw more refl)

  -- How the handler runs.
  kept_run :
      (n : Node p) (m : Tracked) (t : p.TokenTracker)
      → p.untrack n.token_tracker ≡ ok (m, t)
      → is_unchanged p m (record n { token_tracker = t }) ≡ true
      → post_batch_rejected p n ≡ (ok tt, record n { token_tracker = t })
  unfolding post_batch_rejected
  kept_run n m t untracked unchanged = rw (untracked, post_batch_rejected) (rw unchanged refl)

  reverted_run :
      (n : Node p) (m : Tracked) (t : p.TokenTracker) (c : p.UtxoCache)
      → p.untrack n.token_tracker ≡ ok (m, t)
      → is_unchanged p m (record n { token_tracker = t }) ≡ false
      → p.reject_batch n.utxo_cache ≡ ok c
      → post_batch_rejected p n ≡ (
        ok tt,
        record n {
          token_tracker = t;
          token_state = p.revert_to_head n.token_state m.state_root;
          token_ledger = p.discard_txns n.token_ledger m.txn_count;
          utxo_cache = c;
        },
      )
  unfolding post_batch_rejected revert
  reverted_run n m t c untracked changed rejected =
      rw (untracked, post_batch_rejected) (rw changed (rw (rejected, revert) refl))

  -- From objects that agree, with no fees charged since, the rejection of the newest batch, which is of
  -- the domain ledger, returns, and the objects agree on the batches before it; the notes of deducted fees stay, also those of the
  -- batch.
  pub post_batch_rejected-InStep :
      (n : Node p) (b : Mark) (x : Pending) (r : List Pending)
      → InStep p laws n b (x ∷ r)
      → n.fees_tracker.fees_in_current_batch ≡ 0
      → x.of_token ≡ false
      → (n' : Node p) × (post_batch_rejected p n ≡ (ok tt, n'))
        × InStep p laws n' b r
        × (n'.fees_tracker ≡ n.fees_tracker)
  post_batch_rejected-InStep n b x r h rest domain =
      let (t, untracked, marked) = laws.untracked n.token_tracker b x.mark (marks_of r) h.tracked in
      elim (Bool-cases (ltb (newest b r).size x.mark.size)) [
        | inl more ↦
            let larger : (newest b r).size < x.mark.size = ground (arith, more) in
            let (c, rejected, cached) =
              laws.batch_rejected n.utxo_cache x.mark.state_root (cache_roots b r)
                (cached_larger n b x r h domain larger) in
            (
              record n {
                token_tracker = t;
                token_state = p.revert_to_head n.token_state (newest b r).state_root;
                token_ledger = p.discard_txns n.token_ledger (x.mark.size - (newest b r).size);
                utxo_cache = c;
              },
              reverted_run n _ t c untracked (is_unchanged_larger n b x r t h rest larger) rejected,
              reverted-InStep p laws n b x r t c h rest marked cached,
              refl,
            )
        | inr same ↦
            let empty : x.mark.size ≡ (newest b r).size =
              ground (arith, same, (h.chained.0).grows) in
            (
              record n { token_tracker = t },
              kept_run n _ t untracked
                  (is_unchanged_empty (record n { token_tracker = t }) (newest b r) x.mark empty),
              kept-InStep p laws n b x r t h rest domain marked empty,
              refl,
            )
      ]

  -- plenum's part of the rejection of a batch of the token ledger, up to the mark before it.
  abbrev pub dropped : Mark → Mark → Node p → Node p
  dropped b m n = record n {
    token_state = p.revert_to_head n.token_state b.state_root;
    token_ledger = p.discard_txns n.token_ledger (m.size - b.size);
  }

  -- Both handlers of the token ledger, after plenum's part.
  pub token_rejected-InStep :
      (n : Node p) (b : Mark) (x : Pending) (r : List Pending)
      → InStep p laws n b (x ∷ r)
      → n.fees_tracker.fees_in_current_batch ≡ 0
      → x.of_token ≡ true
      → (n' n'' : Node p) × (UtxoHandler.post_batch_rejected p (dropped (newest b r) x.mark n)
          ≡ (ok tt, n'))
        × (TrackerHandler.post_batch_rejected p n' ≡ (ok tt, n''))
        × InStep p laws n'' b r
        × (n''.fees_tracker ≡ n.fees_tracker)
  unfolding UtxoHandler.post_batch_rejected TrackerHandler.post_batch_rejected
  token_rejected-InStep n b x r h rest token =
      let (t, untracked, marked) = laws.untracked n.token_tracker b x.mark (marks_of r) h.tracked in
      let (c, rejected, cached) =
        laws.batch_rejected n.utxo_cache x.mark.state_root (cache_roots b r)
          (h.cached ∙ rw token refl) in
      (
        record (dropped (newest b r) x.mark n) { utxo_cache = c },
        record (dropped (newest b r) x.mark n) { utxo_cache = c; token_tracker = t },
        rw (rejected, UtxoHandler.post_batch_rejected) refl,
        rw (untracked, TrackerHandler.post_batch_rejected) refl,
        reverted-InStep p laws n b x r t c h rest marked cached,
        refl,
      )
