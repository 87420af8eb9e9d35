-- ===== src/Fees/Catchup.antt =====
-- `FeeTxnCatchupHandler` of
-- sovtokenfees/sovtokenfees/req_handlers/write_handlers/fee_txn_handler.py: the transactions of fees
-- that catch-up brings change the state as transfers do; none is ever validated or applied as a
-- request.
use token_plugin.Prelude.{ℕ, Bool}
use token_plugin.Errors.{Result, ok}
use token_plugin.Errors.Exec.{Exec}
use token_plugin.Storage.{KvStore, TrieState}
use token_plugin.Token.{World}
use token_plugin.Xfer.{Payload, xfer_update_state}

unfoldable pub catchup_static_validation : Payload → Result (Unit {0})
catchup_static_validation op = ok tt

unfoldable pub catchup_dynamic_validation : Payload → Result (Unit {0})
catchup_dynamic_validation op = ok tt

module _ (kv : KvStore) (ts : TrieState) where
  unfoldable pub catchup_apply_request : Payload → Exec (World kv ts) (Unit {0})
  catchup_apply_request op w = (ok tt, w)

  -- Inherited.
  unfoldable pub catchup_update_state : Payload → ℕ → Bool → Exec (World kv ts) (Unit {0})
  catchup_update_state = xfer_update_state kv ts
