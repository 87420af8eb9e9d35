-- ===== src/Batch/Laws/Newest.antt =====
-- What holds once the newest batch is taken back.
use token_plugin.Prelude.{ℕ, ◌-◌, ◌≤◌, ◌≡◌, refl, ap, ◌∙◌, ltb, false, List, [], ◌∷◌, arith, All}
use token_plugin.Batch.{Mark, Plenum, Node, current_mark}
use token_plugin.Batch.Laws.{IsPlenum, InStep, Rooted, Pending, marks_of, newest, cache_roots}
use token_plugin.Batch.Laws.Marks.{Chained-base_le, Chained-size_le}

module _ (p : Plenum) (laws : IsPlenum p) where
  -- What holds of the batch that is rejected, and of the node when nothing is in progress.
  same_size :
      (n : Node p) (b : Mark) (x : Pending) (r : List Pending)
      → InStep p laws n b (x ∷ r)
      → n.fees_tracker.fees_in_current_batch ≡ 0
      → p.uncommitted_size n.token_ledger ≡ x.mark.size
  same_size n b x r h rest = omega (arith, h.sized, rest)

  pub head_of :
      (n : Node p) (b : Mark) (x : Pending) (r : List Pending)
      → InStep p laws n b (x ∷ r)
      → n.fees_tracker.fees_in_current_batch ≡ 0
      → p.head_hash n.token_state ≡ x.mark.state_root
  unfolding current_mark
  head_of n b x r h rest = (h.current).stays (same_size n b x r h rest)

  pub root_of :
      (n : Node p) (b : Mark) (x : Pending) (r : List Pending)
      → InStep p laws n b (x ∷ r)
      → n.fees_tracker.fees_in_current_batch ≡ 0
      → p.uncommitted_root_hash n.token_ledger ≡ x.mark.txn_root
  root_of n b x r h rest =
      laws.root-history n.token_ledger
      ∙ ap (laws.history n.token_ledger) (same_size n b x r h rest)
      ∙ h.rooted.1.0

  -- A batch without transactions: only the tracker changes.
  pub kept-InStep :
      (n : Node p) (b : Mark) (x : Pending) (r : List Pending) (t : p.TokenTracker)
      → InStep p laws n b (x ∷ r)
      → n.fees_tracker.fees_in_current_batch ≡ 0
      → x.of_token ≡ false
      → laws.marks t ≡ (b, marks_of r)
      → x.mark.size ≡ (newest b r).size
      → InStep p laws (record n { token_tracker = t }) b r
  unfolding current_mark
  kept-InStep n b x r t h rest domain marked empty = record {
    tracked = marked;
    sized = omega (arith, h.sized, rest, empty);
    committed = h.committed;
    chained = h.chained.1;
    rooted = (h.rooted.0, h.rooted.1.1);
    cached =
        let same : ltb (newest b r).size x.mark.size ≡ false = ground (arith, empty) in
        h.cached ∙ rw domain (rw same refl);
    current = record {
      grows = omega (arith, h.sized, rest, empty);
      stays = λ e. head_of n b x r h rest ∙ (h.chained.0).stays empty;
      state_moves = λ lt. absurd (omega (arith, h.sized, rest, empty, lt));
      root_moves = λ lt. absurd (omega (arith, h.sized, rest, empty, lt));
    };
  }

  All-Rooted :
      (l : p.TokenLedger) (k n : ℕ) (r : List Mark)
      → n ≤ p.uncommitted_size l - k
      → All (λ m. m.size ≤ n) r
      → All (Rooted p laws l) r
      → All (Rooted p laws (p.discard_txns l k)) r
  All-Rooted l k n [] h s a = tt
  All-Rooted l k n (m ∷ r) h s a =
      (laws.history-discard l k m.size (omega (arith, h, s.0)) ∙ a.0, All-Rooted l k n r h s.1 a.1)

  -- A batch with transactions: they are dropped, with the state and the batch of the cache.
  pub reverted-InStep :
      (n : Node p) (b : Mark) (x : Pending) (r : List Pending) (t : p.TokenTracker)
      (c : p.UtxoCache)
      → InStep p laws n b (x ∷ r)
      → n.fees_tracker.fees_in_current_batch ≡ 0
      → laws.marks t ≡ (b, marks_of r)
      → laws.batches c ≡ cache_roots b r
      → InStep p laws
          (record n {
            token_tracker = t;
            token_state = p.revert_to_head n.token_state (newest b r).state_root;
            token_ledger = p.discard_txns n.token_ledger (x.mark.size - (newest b r).size);
            utxo_cache = c;
          })
          b
          r
  unfolding current_mark
  reverted-InStep n b x r t c h rest marked cached =
      let k = x.mark.size - (newest b r).size in
      let shrunk : p.uncommitted_size (p.discard_txns n.token_ledger k) ≡ (newest b r).size =
        omega (
          arith,
          laws.size-discard n.token_ledger k,
          same_size n b x r h rest,
          (h.chained.0).grows,
        ) in
      let kept : (newest b r).size ≤ p.uncommitted_size n.token_ledger - k =
        omega (arith, same_size n b x r h rest, (h.chained.0).grows) in
      record {
        tracked = marked;
        sized = omega (arith, shrunk, rest);
        committed = laws.committed-discard n.token_ledger k ∙ h.committed;
        chained = h.chained.1;
        rooted = (
          laws.history-discard n.token_ledger k b.size
                (omega (arith, kept, Chained-base_le b r h.chained.1))
              ∙ h.rooted.0,
          All-Rooted n.token_ledger k (newest b r).size (marks_of r) kept
              (Chained-size_le b r h.chained.1) h.rooted.1.1,
        );
        cached = cached;
        current = record {
          grows = omega (arith, shrunk);
          stays = λ e. laws.head-revert n.token_state (newest b r).state_root;
          state_moves = λ lt. absurd (omega (arith, shrunk, lt));
          root_moves = λ lt. absurd (omega (arith, shrunk, lt));
        };
      }
