-- ===== src/Tests/Signatures.antt =====
-- A transfer with two signatures.
use token_plugin.Prelude.{◌≡◌, refl, some, List, [], ◌∷◌, ◌++◌}
use token_plugin.Text.{Text}
use token_plugin.Errors.{ok}
use token_plugin.Xfer.Signatures.{
  Operation, PlenumTxn, IsPlenumTxn, req_to_txn, signers, signed_with, req_to_txn-zip_addresses,
}
use token_plugin.Tests.Samples.{alice, bob, inputs}

abbrev operation : Operation
operation = record {
  payload = record { inputs = inputs; outputs = [] };
  signatures = some (alice ∷ bob ∷ []);
}

-- A transaction that is its signatures.
abbrev sig_lists : PlenumTxn
sig_lists = record {
  Txn = List (Text × Text);
  base_req_to_txn = λ op. ok [];
  values = λ txn. txn;
  add_sigs_to_txn = λ txn sigs sig_type. txn ++ sigs;
}

sig_lists-IsPlenumTxn : IsPlenumTxn sig_lists
sig_lists-IsPlenumTxn = record { values-add_sigs_to_txn = λ txn sigs sig_type. refl }

req_to_txn-zip_addresses_example :
    (txn : List (Text × Text)) × (req_to_txn sig_lists operation ≡ (ok txn, operation))
    × (signers txn ≡ alice ∷ alice ∷ [])
    × (signed_with txn ≡ alice ∷ bob ∷ [])
req_to_txn-zip_addresses_example =
    req_to_txn-zip_addresses sig_lists sig_lists-IsPlenumTxn operation (alice ∷ bob ∷ []) [] refl
      refl refl refl
