-- ===== src/Batch/UtxoHandler.antt =====
-- `UTXOBatchHandler` of sovtoken/sovtoken/request_handlers/batch_req_handler/utxo_batch_handler.py:
-- the batches of the UTXO cache for the token ledger itself; and `TokenBatchHandler`, which does
-- nothing. The state root is that of plenum's batch.
use token_plugin.Text.{Text}
use token_plugin.Errors.{ok, err}
use token_plugin.Errors.Exec.{Exec}
use token_plugin.Batch.{Plenum, Node, StateRoot, commit_to_utxo_cache}

module _ (p : Plenum) where
  unfoldable pub post_batch_applied : Text → Node p → Node p
  post_batch_applied state_root n = record n {
    utxo_cache = p.create_batch_from_current n.utxo_cache state_root;
  }

  unfoldable pub post_batch_rejected : Exec (Node p) (Unit {0})
  post_batch_rejected n = elim (p.reject_batch n.utxo_cache) [
    | ok c ↦ (ok tt, record n { utxo_cache = c })
    | err e ↦ (err e, n)
  ]

  unfoldable pub commit_batch : StateRoot → Exec (Node p) (Unit {0})
  commit_batch state_root n = elim (commit_to_utxo_cache p n.utxo_cache state_root) [
    | ok c ↦ (ok tt, record n { utxo_cache = c })
    | err e ↦ (err e, n)
  ]

  unfoldable pub token_post_batch_applied : Node p → Node p
  token_post_batch_applied n = n

  unfoldable pub token_post_batch_rejected : Node p → Node p
  token_post_batch_rejected n = n
