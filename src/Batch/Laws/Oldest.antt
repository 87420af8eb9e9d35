-- ===== src/Batch/Laws/Oldest.antt =====
-- What holds once the oldest batch is committed.
use mathlib.Core.Path.{subst}
use token_plugin.Prelude.{
  ap₂, ℕ, ◌+◌, ◌-◌, ◌≤◌, ◌≡◌, refl, sym, ap, ◌∙◌, false, List, [], ◌∷◌, ◌++◌, append-nil, arith,
  ltb, All,
}
use token_plugin.Batch.{Mark, Plenum, Node, current_mark}
use token_plugin.Fees.Domain.{Tracker}
use token_plugin.Batch.Laws.{
  IsPlenum, InStep, Rooted, Follows, Pending, marks_of, newest, own_root, cache_roots,
}
use token_plugin.Batch.Laws.Marks.{
  Chained-base_le, Chained-append, marks_of-append, newest-append, cache_roots-append, All-last,
}

module _ (p : Plenum) (laws : IsPlenum p) where
  Rooted-parts :
      (l : p.TokenLedger) (x : Pending) (r : List Pending)
      → All (Rooted p laws l) (marks_of (r ++ x ∷ []))
      → Rooted p laws l x.mark × All (Rooted p laws l) (marks_of r)
  Rooted-parts l x r a =
      All-last (Rooted p laws l) x.mark (marks_of r)
        (subst (All (Rooted p laws l)) (marks_of-append r x) a)

  -- Once the oldest batch is off the tracker, nothing more is wanted if it has no transactions.
  pub free-InStep :
      (n : Node p) (b : Mark) (x : Pending) (r : List Pending) (t : p.TokenTracker)
      → InStep p laws n b (r ++ x ∷ [])
      → x.of_token ≡ false
      → laws.marks t ≡ (x.mark, marks_of r)
      → x.mark.size ≡ b.size
      → InStep p laws (record n { token_tracker = t }) x.mark r
  unfolding current_mark
  free-InStep n b x r t h domain marked empty =
      let (last, rooted) = Rooted-parts n.token_ledger x r h.rooted.1 in
      let same : ltb b.size x.mark.size ≡ false = ground (arith, empty) in
      record {
        tracked = marked;
        sized =
            h.sized
            ∙ ap (λ (m : Mark). m.size + n.fees_tracker.fees_in_current_batch)
                (newest-append b x r);
        committed = h.committed ∙ sym empty;
        chained = (Chained-append b x r h.chained).1;
        rooted = (last, rooted);
        cached =
            h.cached
            ∙ cache_roots-append b x r
            ∙ ap (λ l. cache_roots x.mark r ++ l) (rw domain (rw same refl))
            ∙ append-nil (cache_roots x.mark r);
        current = subst (λ m. Follows m (current_mark p n)) (newest-append b x r) h.current;
      }

  -- What the cache has when its oldest batch is that of the batch.
  pub cached_first :
      (n : Node p) (b : Mark) (x : Pending) (r : List Pending)
      → InStep p laws n b (r ++ x ∷ [])
      → own_root b x ≡ x.mark.state_root ∷ []
      → laws.batches n.utxo_cache ≡ cache_roots x.mark r ++ x.mark.state_root ∷ []
  cached_first n b x r h own =
      h.cached ∙ cache_roots-append b x r ∙ ap (λ l. cache_roots x.mark r ++ l) own

  same_mark :
      (n : Node p) (t : p.TokenTracker) (l : p.TokenLedger) (s : p.TokenState) (c : p.UtxoCache)
      (f : Tracker)
      → p.uncommitted_size l ≡ p.uncommitted_size n.token_ledger
      → ((j : ℕ) → laws.history l j ≡ laws.history n.token_ledger j)
      → p.head_hash s ≡ p.head_hash n.token_state
      → current_mark p (record {
        token_state = s;
        token_ledger = l;
        token_tracker = t;
        utxo_cache = c;
        fees_tracker = f;
      })
        ≡ current_mark p n
  unfolding current_mark
  same_mark n t l s c f size history head =
      let root : p.uncommitted_root_hash l ≡ p.uncommitted_root_hash n.token_ledger =
        laws.root-history l
        ∙ ap (laws.history l) size
        ∙ history (p.uncommitted_size n.token_ledger)
        ∙ sym (laws.root-history n.token_ledger) in
      λ i. record { state_root = head i; txn_root = root i; size = size i }

  All-same :
      (l l' : p.TokenLedger) (r : List Mark)
      → ((j : ℕ) → laws.history l' j ≡ laws.history l j)
      → All (Rooted p laws l) r
      → All (Rooted p laws l') r
  All-same l l' [] same a = tt
  All-same l l' (m ∷ r) same a = (same m.size ∙ a.0, All-same l l' r same a.1)

  -- With the transactions of the batch committed.
  pub committed-InStep :
      (n : Node p) (b : Mark) (x : Pending) (r : List Pending) (t : p.TokenTracker)
      (l : p.TokenLedger) (s : p.TokenState) (c : p.UtxoCache) (f : Tracker)
      → InStep p laws n b (r ++ x ∷ [])
      → n.fees_tracker.fees_in_current_batch ≡ 0
      → f.fees_in_current_batch ≡ 0
      → laws.marks t ≡ (x.mark, marks_of r)
      → p.uncommitted_size l ≡ p.uncommitted_size n.token_ledger
      → laws.committed_size l ≡ x.mark.size
      → ((j : ℕ) → laws.history l j ≡ laws.history n.token_ledger j)
      → p.head_hash s ≡ p.head_hash n.token_state
      → laws.batches c ≡ cache_roots x.mark r
      → InStep p laws
          (record {
            token_state = s;
            token_ledger = l;
            token_tracker = t;
            utxo_cache = c;
            fees_tracker = f;
          })
          x.mark
          r
  committed-InStep n b x r t l s c f h rest at_rest marked size committed history head cached =
      let (last, rooted) = Rooted-parts n.token_ledger x r h.rooted.1 in
      record {
        tracked = marked;
        sized =
            size
            ∙ h.sized
            ∙ ap₂ (λ (m : Mark) (k : ℕ). m.size + k) (newest-append b x r) (rest ∙ sym at_rest);
        committed = committed;
        chained = (Chained-append b x r h.chained).1;
        rooted =
            (history x.mark.size ∙ last, All-same n.token_ledger l (marks_of r) history rooted);
        cached = cached;
        current =
            subst (λ m. Follows (newest x.mark r) m) (sym (same_mark n t l s c f size history head))
              (subst (λ m. Follows m (current_mark p n)) (newest-append b x r) h.current);
      }

  -- What plenum's objects do for the oldest batch.
  pub oldest_tracked :
      (n : Node p) (b : Mark) (x : Pending) (r : List Pending)
      → InStep p laws n b (r ++ x ∷ [])
      → laws.marks n.token_tracker ≡ (b, marks_of r ++ x.mark ∷ [])
  oldest_tracked n b x r h = h.tracked ∙ ap (λ l. (b, l)) (marks_of-append r x)

  -- With its transactions the ledger has the root of the batch.
  pub oldest_root :
      (n : Node p) (b : Mark) (x : Pending) (r : List Pending) (k : ℕ)
      → InStep p laws n b (r ++ x ∷ [])
      → b.size + k ≡ x.mark.size
      → laws.history n.token_ledger (laws.committed_size n.token_ledger + k) ≡ x.mark.txn_root
  oldest_root n b x r k h counted =
      ap (λ m. laws.history n.token_ledger (m + k)) h.committed
      ∙ ap (laws.history n.token_ledger) counted
      ∙ (Rooted-parts n.token_ledger x r h.rooted.1).0

  pub oldest_there :
      (n : Node p) (b : Mark) (x : Pending) (r : List Pending) (k : ℕ)
      → InStep p laws n b (r ++ x ∷ [])
      → b.size + k ≡ x.mark.size
      → k ≤ p.uncommitted_size n.token_ledger - laws.committed_size n.token_ledger
  oldest_there n b x r k h counted = omega (
    arith,
    h.committed,
    counted,
    h.sized,
    ap (λ (m : Mark). m.size) (newest-append b x r),
    Chained-base_le x.mark r (Chained-append b x r h.chained).1,
  )
