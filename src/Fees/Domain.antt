-- ===== src/Fees/Domain.antt =====
-- The fees of requests on the domain ledger: `DomainFeeHandler` of
-- sovtokenfees/sovtokenfees/req_handlers/write_handlers/domain_fee_handler.py and `BatchFeesTracker`
-- of sovtokenfees/sovtokenfees/req_handlers/fees_utils.py. The token ledger is plenum's and is an
-- interface; what `reqToTxn` makes of a request is the record of its parts.
pub mod Charges
use token_plugin.Prelude.{
  ℕ, suc, Bool, true, false, Option, none, some, List, [], ◌∷◌, ◌++◌, if◌then◌else◌,
}
use token_plugin.Prelude.Int.{ℤ}
use token_plugin.Text.{Text, text_eq}
use token_plugin.Text.Dict.{assign, has_key}
use token_plugin.Text.Decimal.{str}
use token_plugin.Errors.{Exn, Result, ok, err}
use token_plugin.Errors.Exec.{Exec, ◌>>◌, for_each}
use token_plugin.Storage.{KvStore, TrieState}
use token_plugin.Cache.{Input}
use token_plugin.Token.{Payment, World, spend_input}
use token_plugin.Xfer.{add_outputs}
use token_plugin.Fees.Authorizer.{FeesField, missing, null, given, Request, calculate_fees_from_req}

pub record Tracker : Type 0 where
  pub fees_in_current_batch : ℕ
  pub deducted_fees : List (Text × ℤ)

-- "{}#{}"
unfoldable pub deducted_key : Text → ℕ → Text
deducted_key txn_type seq_no = txn_type ++ (b'#' ∷ str seq_no)

unfoldable pub add_deducted_fees : Tracker → Text → ℕ → ℤ → Tracker
add_deducted_fees t txn_type seq_no fees = record t {
  deducted_fees = assign (deducted_key txn_type seq_no) fees t.deducted_fees;
}

unfoldable pub has_deducted_fees : Tracker → Text → ℕ → Bool
has_deducted_fees t txn_type seq_no = has_key (deducted_key txn_type seq_no) t.deducted_fees

-- A request other than a transfer, with fees.
abbrev pub fees_request :
    List Input → List Payment → List Text → List Input → List Payment → Request
fees_request inputs change signatures own_inputs own_outputs = record {
  is_xfer = false;
  inputs = own_inputs;
  outputs = own_outputs;
  fees = given (record { inputs = inputs; change = some change; signatures = some signatures });
}

-- Of the request's own transaction, what its fees are noted with.
pub record PrevResult : Type 0 where
  pub seq_no : ℕ
  pub req_id : Option ℕ
  pub txn_time : Option ℕ

-- A transaction of the type FEE_TXN.
pub record FeeTxn : Type 0 where
  pub inputs : List Input
  pub outputs : List Payment
  pub ref : Text
  pub fees : ℤ
  pub sigs : List (Text × Text)
  pub req_id : Option ℕ
  pub protocol_version : ℕ
  pub txn_time : Option ℕ

-- `append_txns_metadata`, after the time is set, and `appendTxns`: the sequence number that the
-- transaction gets.
pub record TxnLedger : Type 1 where
  pub State : Type 0
  pub append : State → FeeTxn → ℕ × State

-- `{i[ADDRESS]: s for i, s in zip(inputs, signatures)}`
unfoldable pub sigs_by_address : List Input → List Text → List (Text × Text) → List (Text × Text)
unfolding assign
sigs_by_address [] sigs d = d
sigs_by_address (i ∷ is) [] d = d
sigs_by_address (i ∷ is) (s ∷ sigs) d = sigs_by_address is sigs (assign i.address s d)

unfoldable pub get_ref_for_txn_fees : ℕ → ℕ → Text
get_ref_for_txn_fees ledger_id seq_no = str ledger_id ++ (b':' ∷ str seq_no)

module _ (kv : KvStore) (ts : TrieState) (tl : TxnLedger) where
  pub record FeesState : Type 0 where
    pub world : World kv ts
    pub ledger : tl.State
    pub tracker : Tracker

  unfoldable pub update_token_state :
      List Input → List Payment → ℕ → Bool → Exec (World kv ts) (Unit {0})
  update_token_state inputs outputs seq_no is_committed =
      for_each inputs (λ i. spend_input kv ts i.address i.seq_no is_committed true)
      >> add_outputs kv ts outputs seq_no is_committed

  -- The counter and the deducted fees change only once the token state is updated.
  unfoldable pub track :
      Text
      → ℕ
      → ℤ
      → Tracker
      → tl.State
      → Result (Unit {0}) × World kv ts
      → Result (Unit {0}) × FeesState
  track txn_type seq_no fees t l (ok x, w) = (
    ok tt,
    record {
      world = w;
      ledger = l;
      tracker =
          add_deducted_fees (record t { fees_in_current_batch = suc t.fees_in_current_batch })
            txn_type seq_no fees;
    },
  )
  track txn_type seq_no fees t l (err e, w) = (err e, record { world = w; ledger = l; tracker = t })

  -- The fees transaction, appended and applied.
  unfoldable pub append_fees : Text → ℕ → FeeTxn → Exec FeesState (Unit {0})
  unfolding track
  append_fees txn_type seq_no txn s =
      let (n, l) = tl.append s.ledger txn in
      track txn_type seq_no txn.fees s.tracker l
        (update_token_state txn.inputs txn.outputs n false s.world)

  -- `inputs, outputs, signatures = request.fees` wants three parts.
  unfoldable pub charge : ℕ → Text → PrevResult → Request → FeesField → Exec FeesState (Unit {0})
  charge ledger_id txn_type prev_result r f s = elim f.change [
    | none ↦ (err Exn.value_error, s)
    | some outputs ↦ elim f.signatures [
      | none ↦ (err Exn.value_error, s)
      | some signatures ↦ elim (calculate_fees_from_req kv s.world.cache r) [
        | err e ↦ (err e, s)
        | ok fees ↦
            append_fees txn_type prev_result.seq_no
              (record {
                inputs = f.inputs;
                outputs = outputs;
                ref = get_ref_for_txn_fees ledger_id prev_result.seq_no;
                fees = fees;
                sigs = sigs_by_address f.inputs signatures [];
                req_id = prev_result.req_id;
                protocol_version = 2;
                txn_time = prev_result.txn_time;
              })
              s
      ]
    ]
  ]

  -- A request whose fees are missing or None is not charged.
  unfoldable pub apply_request : ℕ → Text → PrevResult → Request → Exec FeesState (Unit {0})
  unfolding charge
  apply_request ledger_id txn_type prev_result r s = elim r.fees [
    | missing ↦ (ok tt, s)
    | null ↦ (ok tt, s)
    | given f ↦ charge ledger_id txn_type prev_result r f s
  ]
