-- ===== src/Batch/Laws/Applied.antt =====
-- A batch is applied: what was in progress becomes a batch of its own.
use token_plugin.Prelude.{
  ◌≡◌, refl, sym, ap, ◌∙◌, Bool, true, false, List, ◌∷◌, ◌++◌, arith, ltb, Bool-cases, inl, inr,
  All,
}
use token_plugin.Fees.Domain.{Tracker}
use token_plugin.Batch.{Mark, Plenum, Node, current_mark}
use token_plugin.Batch.FeeHandler.{post_batch_applied, reset_fees}
use token_plugin.Batch.TrackerHandler
use token_plugin.Batch.UtxoHandler
use token_plugin.Batch.Laws.{
  IsPlenum, InStep, Rooted, Follows, Pending, Chained, marks_of, newest, own_root, cache_roots,
}
use token_plugin.Batch.Laws.Marks.{Follows-refl}

module _ (p : Plenum) (laws : IsPlenum p) where
  -- The new batch, from what the node has and from its tracker and cache after it.
  noted-InStep :
      (n : Node p) (b : Mark) (r : List Pending) (of_token : Bool) (t : p.TokenTracker)
      (c : p.UtxoCache) (f : Tracker)
      → laws.committed_size n.token_ledger ≡ b.size
      → Chained b r
      → Rooted p laws n.token_ledger b × All (Rooted p laws n.token_ledger) (marks_of r)
      → Follows (newest b r) (current_mark p n)
      → laws.marks t ≡ (b, current_mark p n ∷ marks_of r)
      → laws.batches c
        ≡ own_root (newest b r) (record { mark = current_mark p n; of_token = of_token })
          ++ cache_roots b r
      → f.fees_in_current_batch ≡ 0
      → InStep p laws
          (record n { token_tracker = t; utxo_cache = c; fees_tracker = f })
          b
          (record { mark = current_mark p n; of_token = of_token } ∷ r)
  unfolding current_mark
  noted-InStep n b r of_token t c f committed chained rooted current marked cached rest = record {
    tracked = marked;
    sized = omega (arith, rest);
    committed = committed;
    chained = (current, chained);
    rooted = (rooted.0, (sym (laws.root-history n.token_ledger), rooted.1));
    cached = cached;
    current = Follows-refl _;
  }

  pub post_batch_applied-InStep :
      (n : Node p) (b : Mark) (r : List Pending)
      → InStep p laws n b r
      → InStep p laws
          (post_batch_applied p n)
          b
          (record { mark = current_mark p n; of_token = false } ∷ r)
  unfolding post_batch_applied reset_fees current_mark
  post_batch_applied-InStep n b r h =
      elim (Bool-cases (ltb 0 n.fees_tracker.fees_in_current_batch)) [
        | inl charged ↦
            let larger : ltb (newest b r).size (p.uncommitted_size n.token_ledger) ≡ true =
              ground (arith, h.sized, charged) in
            rw charged (
              noted-InStep n b r false _ _ _ h.committed h.chained h.rooted h.current
                (laws.marks-track _ b _ (marks_of r) h.tracked)
                (laws.batches-create _ _
                  ∙ ap (λ l. p.head_hash n.token_state ∷ l) h.cached
                  ∙ sym (rw larger refl))
                refl)
        | inr free ↦
            let same : ltb (newest b r).size (p.uncommitted_size n.token_ledger) ≡ false =
              ground (arith, h.sized, free) in
            rw free (
              noted-InStep n b r false _ _ n.fees_tracker h.committed h.chained h.rooted h.current
                (laws.marks-track _ b _ (marks_of r) h.tracked) (h.cached ∙ sym (rw same refl))
                (ground (arith, free)))
      ]

  -- A batch of the token ledger itself: both of its handlers, with the root of the state.
  pub token_applied-InStep :
      (n : Node p) (b : Mark) (r : List Pending)
      → laws.committed_size n.token_ledger ≡ b.size
      → Chained b r
      → Rooted p laws n.token_ledger b × All (Rooted p laws n.token_ledger) (marks_of r)
      → Follows (newest b r) (current_mark p n)
      → laws.marks n.token_tracker ≡ (b, marks_of r)
      → laws.batches n.utxo_cache ≡ cache_roots b r
      → n.fees_tracker.fees_in_current_batch ≡ 0
      → InStep p laws
          (TrackerHandler.post_batch_applied p
            (UtxoHandler.post_batch_applied p (p.head_hash n.token_state) n))
          b
          (record { mark = current_mark p n; of_token = true } ∷ r)
  unfolding TrackerHandler.post_batch_applied UtxoHandler.post_batch_applied current_mark
  token_applied-InStep n b r committed chained rooted current tracked cached rest =
      noted-InStep n b r true _ _ n.fees_tracker committed chained rooted current
        (laws.marks-track _ b _ (marks_of r) tracked)
        (laws.batches-create _ _ ∙ ap (λ l. p.head_hash n.token_state ∷ l) cached) rest
