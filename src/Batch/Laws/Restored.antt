-- ===== src/Batch/Laws/Restored.antt =====
-- All batches since the last commit are rejected, as a view change does.
use token_plugin.Prelude.{
  if◌then◌else◌, Bool-cases, inl, inr, ◌≡◌, refl, ap, ◌∙◌, List, [], ◌∷◌, arith,
}
use token_plugin.Errors.{Result, ok, err}
use token_plugin.Fees.Domain.{Tracker}
use token_plugin.Batch.{Mark, Plenum, Node, current_mark}
use token_plugin.Batch.TrackerHandler
use token_plugin.Batch.UtxoHandler
use token_plugin.Batch.FeeHandler.{post_batch_rejected}
use token_plugin.Batch.Laws.{IsPlenum, InStep, Pending, newest}
use token_plugin.Batch.Laws.Rejected.{dropped, post_batch_rejected-InStep, token_rejected-InStep}
use token_plugin.Batch.Laws.Steps.{Reach}
use token_plugin.Batch.Laws.Reach.{Reach-InStep}

module _ (p : Plenum) (laws : IsPlenum p) where
  -- The statement after one that rejects a batch.
  abbrev pub then_reject :
      (Node p → Result (Unit {0}) × Node p)
      → Result (Unit {0}) × Node p
      → Result (Unit {0}) × Node p
  then_reject rest (ok x, n) = rest n
  then_reject rest (err e, n) = (err e, n)

  -- The rejection of a batch, of which plenum has dropped the transactions if it is of the token
  -- ledger.
  abbrev pub reject_one : Mark → Pending → Node p → Result (Unit {0}) × Node p
  reject_one b x n =
      if x.of_token
      then then_reject (TrackerHandler.post_batch_rejected p)
          (UtxoHandler.post_batch_rejected p (dropped p laws b x.mark n))
      else post_batch_rejected p n

  -- Each batch in turn, the newest first.
  abbrev pub reject_each : Mark → List Pending → Node p → Result (Unit {0}) × Node p
  reject_each b [] n = (ok tt, n)
  reject_each b (x ∷ r) n = then_reject (reject_each b r) (reject_one (newest b r) x n)

  reject_one-InStep :
      (n : Node p) (b : Mark) (x : Pending) (r : List Pending)
      → InStep p laws n b (x ∷ r)
      → n.fees_tracker.fees_in_current_batch ≡ 0
      → (n' : Node p) × (reject_one (newest b r) x n ≡ (ok tt, n'))
        × InStep p laws n' b r
        × (n'.fees_tracker ≡ n.fees_tracker)
  reject_one-InStep n b x r h rest = elim (Bool-cases x.of_token) [
    | inl token ↦
        let (n1, n2, run, more, h1, notes) = token_rejected-InStep p laws n b x r h rest token in
        (
          n2,
          rw token (ap (λ y. then_reject (TrackerHandler.post_batch_rejected p) y) run ∙ more),
          h1,
          notes,
        )
    | inr domain ↦
        let (n1, run, h1, notes) = post_batch_rejected-InStep p laws n b x r h rest domain in
        (n1, rw domain run, h1, notes)
  ]

  restored_after :
      (n : Node p) (b : Mark) (r : List Pending)
      → InStep p laws n b r
      → n.fees_tracker.fees_in_current_batch ≡ 0
      → (n' : Node p) × (reject_each b r n ≡ (ok tt, n'))
        × (p.head_hash n'.token_state ≡ b.state_root)
        × (p.uncommitted_root_hash n'.token_ledger ≡ b.txn_root)
        × (laws.batches n'.utxo_cache ≡ [])
  unfolding current_mark
  restored_after n b [] h rest =
      let size : p.uncommitted_size n.token_ledger ≡ b.size = omega (arith, h.sized, rest) in
      (
        n,
        refl,
        (h.current).stays size,
        laws.root-history n.token_ledger ∙ ap (laws.history n.token_ledger) size ∙ h.rooted.0,
        h.cached,
      )
  restored_after n b (x ∷ r) h rest =
      let (n1, run1, h1, notes) = reject_one-InStep n b x r h rest in
      let (n', run, head, root, batches) =
        restored_after n1 b r h1 (ap (λ (t : Tracker). t.fees_in_current_batch) notes ∙ rest) in
      (n', ap (λ y. then_reject (reject_each b r) y) run1 ∙ run, head, root, batches)

  -- From any state that can be reached, with no fees charged since the newest batch, all batches since
  -- the last commit, of either ledger, can be rejected, one after the other; the state and the ledger
  -- then have the roots of the last commit, and the cache has no batch.
  pub reject_each-IsRestored :
      (n : Node p) (b : Mark) (r : List Pending)
      → Reach p laws n b r
      → n.fees_tracker.fees_in_current_batch ≡ 0
      → (n' : Node p) × (reject_each b r n ≡ (ok tt, n'))
        × (p.head_hash n'.token_state ≡ b.state_root)
        × (p.uncommitted_root_hash n'.token_ledger ≡ b.txn_root)
        × (laws.batches n'.utxo_cache ≡ [])
  reject_each-IsRestored n b r s = restored_after n b r (Reach-InStep p laws n b r s)
