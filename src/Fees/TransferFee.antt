-- ===== src/Fees/TransferFee.antt =====
-- The fees of a transfer, which it pays from its own inputs: `XferFeeHandler` of
-- sovtokenfees/sovtokenfees/req_handlers/write_handlers/xfer_fee_handler.py leaves the sums to the
-- authorizer, and updates the state like `XferHandler`.
use mathlib.Core.Path.{subst}
use token_plugin.Prelude.{ℕ, ◌+◌, ◌≡◌, true, false, Option, some, List, arith}
use token_plugin.Text.{Text}
use token_plugin.Errors.{Result, ok}
use token_plugin.Errors.Exec.{catch-ok}
use token_plugin.Storage.{KvStore, TrieState}
use token_plugin.Cache.Refines.{Holds}
use token_plugin.Cache.Sums.{sum_inputs-Sums}
use token_plugin.Ledger.{Ledger, owed, AreDistinct, Sums}
use token_plugin.Ledger.Supply.{supply, AreUnique}
use token_plugin.Ledger.Transaction.{transfer}
use token_plugin.Ledger.Transfer.{CoversInputs, CoversOutputs, transfer_total}
use token_plugin.Token.{World, sum_outputs}
use token_plugin.Xfer.{Payload, to_operation_error, xfer_update_state}
use token_plugin.Xfer.Conserves.{xfer_update_state-Simulates, follows_ok}
use token_plugin.Fees.Authorizer.{FeesAttr, Request, accepted, fees_get, authorize}
use token_plugin.Fees.Authorizer.Decides.{authorize_iff}

-- The validator is indy's, with the authorizer in it.
unfoldable pub xfer_fee_dynamic_validation :
    (Payload → Result (Unit {0})) → Payload → Result (Unit {0})
xfer_fee_dynamic_validation validate op = validate op

-- The request of a transfer, as the authorizer sees it.
abbrev pub xfer_request : Payload → FeesAttr → Request
xfer_request p a = record { is_xfer = true; inputs = p.inputs; outputs = p.outputs; fees = a }

-- The inputs of a transfer that the authorizer accepts are unspent, and worth its outputs and fees.
pub xfer_request-owed :
    (kv : KvStore) (fees : List (Text × ℕ)) (alias : Option Text) (a : FeesAttr) (c : kv.Cache)
    (v : Ledger) (p : Payload)
    → Holds kv c false v
    → AreDistinct p.inputs
    → authorize kv c fees alias (xfer_request p a) ≡ ok accepted
    → owed v p.inputs ≡ some (sum_outputs p.outputs + fees_get fees alias)
xfer_request-owed kv fees alias a c v p h d e =
    subst (λ x. Sums x (owed v p.inputs)) ((authorize_iff kv c fees alias (xfer_request p a)).0 e)
      (sum_inputs-Sums kv c false v h p.inputs d)

module _ (kv : KvStore) (ts : TrieState) (addrs : List Text) (unique : AreUnique addrs) where
  -- From a cache that holds a ledger, a transfer whose validation implies that the authorizer accepts
  -- it, and that names no input twice, is applied whole; any list of different addresses that has its
  -- parties then holds less by just the fees that are due.
  pub xfer_fee_charges :
      (validate : Payload → Result (Unit {0})) (fees : List (Text × ℕ)) (alias : Option Text)
      (a : FeesAttr) (w : World kv ts) (v : Ledger) (p : Payload) (n : ℕ)
      → (validate p ≡ ok tt → authorize kv w.cache fees alias (xfer_request p a) ≡ ok accepted)
      → Holds kv w.cache false v
      → CoversInputs addrs p.inputs
      → CoversOutputs addrs p.outputs
      → AreDistinct p.inputs
      → xfer_fee_dynamic_validation validate p ≡ ok tt
      → (v' : Ledger) × ((xfer_update_state kv ts p n false w).0 ≡ ok tt)
        × Holds kv (xfer_update_state kv ts p n false w).1.cache false v'
        × (supply addrs v' + fees_get fees alias ≡ supply addrs v)
  unfolding xfer_fee_dynamic_validation
  xfer_fee_charges validate fees alias a w v p n authorized h ci co d passed =
      let owe = xfer_request-owed kv fees alias a w.cache v p h d (authorized passed) in
      let (v', done, moved) =
        transfer_total addrs unique v p.inputs p.outputs n
          (sum_outputs p.outputs + fees_get fees alias) ci co d owe in
      let (returned, held) =
        follows_ok kv ts false _ _ w v v' (xfer_update_state-Simulates kv ts p n false) h
          (catch-ok to_operation_error (transfer p.inputs p.outputs n) v v' done) in
      (v', returned, held, omega (arith, moved))
