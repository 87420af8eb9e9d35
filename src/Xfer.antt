-- ===== src/Xfer.antt =====
-- The write handlers of the token ledger:
-- sovtoken/sovtoken/request_handlers/write_request_handler/{xfer_handler,xfer_handler_1_0_0,
-- mint_handler}.py. The `write_req_validator` is indy's and is a parameter.
pub mod Conserves
pub mod Agreement
pub mod Signatures
use token_plugin.Prelude.{ℕ, Bool, true, false, some, List, if◌then◌else◌}
use token_plugin.Text.{Text}
use token_plugin.Errors.{Exn, Result, ok, err, is_utxo_error, ◌>>=◌, ◌>>◌, map_err}
use token_plugin.Errors.Exec
use token_plugin.Errors.Exec.{Exec, for_each, catch_as}
use token_plugin.Storage.{KvStore, TrieState}
use token_plugin.Cache.{Input}
use token_plugin.Token.{
  Payment, World, spend_input, add_new_output, token_sum_inputs, sum_outputs,
  validate_given_inputs_outputs,
}

-- The inputs and outputs of an operation, or of the payload of a transaction.
pub record Payload : Type 0 where
  pub inputs : List Input
  pub outputs : List Payment

-- `except UTXOError` of `update_state`.
unfoldable pub to_operation_error : Exn → Exn
to_operation_error e = if is_utxo_error e then Exn.operation_error else e

-- `isinstance(ex, InvalidClientMessageException)`, and the error it becomes if not.
unfoldable pub to_client_message : Exn → Exn
to_client_message Exn.invalid_funds = Exn.invalid_funds
to_client_message Exn.extra_funds = Exn.extra_funds
to_client_message Exn.insufficient_funds = Exn.insufficient_funds
to_client_message _ = Exn.invalid_client_message

module _ (kv : KvStore) (ts : TrieState) where
  -- `_do_validate_inputs_ouputs`
  unfoldable pub do_validate_inputs_outputs : kv.Cache → Payload → Result (Unit {0})
  do_validate_inputs_outputs cache op = do
    sum_in ← map_err to_client_message (token_sum_inputs kv ts cache op.inputs false)
    validate_given_inputs_outputs sum_in (sum_outputs op.outputs)

  unfoldable pub dynamic_validation :
      (Payload → Result (Unit {0})) → kv.Cache → Payload → Result (Unit {0})
  dynamic_validation validate cache op = do_validate_inputs_outputs cache op >> validate op

  unfoldable pub add_outputs : List Payment → ℕ → Bool → Exec (World kv ts) (Unit {0})
  add_outputs outputs seq_no is_committed = for_each outputs λ o.
      add_new_output kv ts (record { address = o.address; seq_no = seq_no; amount = some o.amount })
        is_committed

  unfoldable pub transfer_with : Bool → Payload → ℕ → Bool → Exec (World kv ts) (Unit {0})
  transfer_with remove_spent payload seq_no is_committed = catch_as to_operation_error (
      Exec.◌>>◌
        (for_each payload.inputs
          λ i. spend_input kv ts i.address i.seq_no is_committed remove_spent)
        (add_outputs payload.outputs seq_no is_committed))

  -- `XferHandler.update_state`
  unfoldable pub xfer_update_state : Payload → ℕ → Bool → Exec (World kv ts) (Unit {0})
  unfolding transfer_with add_outputs
  xfer_update_state = transfer_with true

  -- `XferHandler100.update_state`: spent outputs stay in the state, with an empty value.
  unfoldable pub xfer_100_update_state : Payload → ℕ → Bool → Exec (World kv ts) (Unit {0})
  unfolding transfer_with add_outputs
  xfer_100_update_state = transfer_with false

  -- `MintHandler.update_state`
  unfoldable pub mint_update_state : List Payment → ℕ → Bool → Exec (World kv ts) (Unit {0})
  unfolding add_outputs
  mint_update_state outputs seq_no is_committed =
      catch_as to_operation_error (add_outputs outputs seq_no is_committed)
