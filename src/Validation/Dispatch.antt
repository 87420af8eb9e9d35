-- ===== src/Validation/Dispatch.antt =====
-- The validators of a UTXO query and the choice of a validator by the type of the operation:
-- sovtoken/sovtoken/messages/{txn_validator,validation}.py; and `TxnFeesField` of
-- sovtokenfees/sovtokenfees/messages/fields.py. plenum's fields are parameters.
use token_plugin.Prelude.{ℕ, Option, none, some, List, ◌==◌, if◌then◌else◌, length}
use token_plugin.Text.{Text}
use token_plugin.Errors.{Exn, Result, ok, err, ◌>>◌}
use token_plugin.Cache.{Input}
use token_plugin.Token.{Payment}
use token_plugin.Validation.{
  Message, Check, ◌or_else◌, address_field, inputs_field, outputs_field, TxnType, Operation, Bases,
  txn_mint_public_validate, txn_xfer_public_validate, static_validation,
}

-- A number that is not given passes.
unfoldable pub from_validate : (ℕ → Check) → Operation → Check
from_validate seq_no_field op = elim op.from_seqno [ none ↦ ok none | some n ↦ seq_no_field n ]

-- A message is raised here, so nothing is returned.
unfoldable pub address_validate : (Text → Option (List ℕ)) → Operation → Result (Unit {0})
address_validate b58decode_check op = elim op.address [
  | none ↦ err Exn.invalid_client_request
  | some a ↦ static_validation (address_field b58decode_check a)
]

unfoldable pub txt_get_utxo_validate : (Text → Option (List ℕ)) → (ℕ → Check) → Operation → Check
txt_get_utxo_validate b58decode_check seq_no_field op = elim op.txn_type [
  | TxnType.get_utxo ↦ address_validate b58decode_check op >> from_validate seq_no_field op
  | _ ↦ ok none
]

unfoldable pub static_req_validation :
    (Text → Option (List ℕ)) → (ℕ → Check) → Bases → Operation → Result (Unit {0})
static_req_validation b58decode_check seq_no_field bases op = elim op.txn_type [
  | TxnType.mint_public ↦ static_validation (txn_mint_public_validate bases op)
  | TxnType.xfer_public ↦ static_validation (txn_xfer_public_validate bases op)
  | TxnType.get_utxo ↦ static_validation (txt_get_utxo_validate b58decode_check seq_no_field op)
  | TxnType.other_type ↦ err Exn.invalid_client_request
]

-- `TxnFeesField`, of a value with three parts; the base class has checked that there are three.
unfoldable pub fees_field :
    Check → Bases → (List Text → Check) → List Input → List Payment → List Text → Check
fees_field base bases signatures_validator inputs outputs signatures =
    base
    or_else inputs_field bases.inputs inputs
    or_else outputs_field bases.outputs outputs
    or_else signatures_validator signatures
    or_else (if length inputs == length signatures
        then ok none
        else ok (some Message.other_message))
