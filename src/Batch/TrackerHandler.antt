-- ===== src/Batch/TrackerHandler.antt =====
-- `TrackerBatchHandler` of
-- sovtokenfees/sovtokenfees/req_handlers/batch_handlers/tracker_batch_handler.py: it notes the batches
-- of the token ledger itself.
use token_plugin.Errors.{ok, err}
use token_plugin.Errors.Exec.{Exec}
use token_plugin.Batch.{Plenum, Node, current_mark}

module _ (p : Plenum) where
  unfoldable pub post_batch_applied : Node p → Node p
  post_batch_applied n = record n { token_tracker = p.track n.token_tracker (current_mark p n) }

  unfoldable pub post_batch_rejected : Exec (Node p) (Unit {0})
  post_batch_rejected n = elim (p.untrack n.token_tracker) [
    | ok (m, t) ↦ (ok tt, record n { token_tracker = t })
    | err e ↦ (err e, n)
  ]

  unfoldable pub commit_batch : Exec (Node p) (Unit {0})
  commit_batch n = elim (p.track_commit n.token_tracker) [
    | ok (m, t) ↦ (ok tt, record n { token_tracker = t })
    | err e ↦ (err e, n)
  ]
