-- ===== src/Tests/Charging.antt =====
-- A domain request that pays a fee of 3.
use token_plugin.Prelude.{
  ℕ, suc, ◌+◌, ◌≡◌, refl, false, some, List, [], ◌∷◌, length, get_or, arith, ap, sym, ◌∙◌,
  get_elem?,
}
use token_plugin.Text.{Text, text_eq}
use token_plugin.Text.Decimal.{str, int, str-ne-nil}
use token_plugin.Text.Split.{split, join}
use token_plugin.Errors.{Exn, Result, ok, err}
use token_plugin.Cache.Refines.{Holds}
use token_plugin.Xfer.{add_outputs, Payload, xfer_update_state}
use token_plugin.Fees.TransferFee.{xfer_fee_dynamic_validation, xfer_request, xfer_fee_charges}
use token_plugin.Errors.Exec.{for_each}
use token_plugin.Amounts.{init, sum_amounts, remove_seq_no, as_str, add_amount}
use token_plugin.Amounts.Pairs.{text_of}
use token_plugin.Cache.{
  spend_output, add_output, sum_inputs, group_inputs, add_seq_no, get_amounts, sum_groups,
}
use token_plugin.Ledger.{Ledger}
use token_plugin.Ledger.Supply.{supply, AreUnique}
use token_plugin.Token.{
  Payment, create_state_key, spend_input, set_state, on_cache, add_new_output, amount_text,
}
use token_plugin.Fees.Authorizer.{
  calculate_fees_from_req, calculated, refused, FeesAttr, Request, accepted, fees_get, authorize,
}
use token_plugin.Fees.Authorizer.Decides.{authorize_iff}
use token_plugin.Text.Dict.{assign}
use token_plugin.Fees.Domain.{
  append_fees, update_token_state, add_deducted_fees, charge, deducted_key, get_ref_for_txn_fees,
  sigs_by_address, track, PrevResult, FeeTxn, TxnLedger, FeesState, fees_request, apply_request,
}
use token_plugin.Fees.Domain.Charges.{Charged, fees_txn, apply_request_charges}
use token_plugin.Tests.Plenum.{counts, counts_laws}
use token_plugin.Batch.{Mark, current_mark}
use token_plugin.Batch.Laws.{InStep}
use token_plugin.Batch.Laws.Charges.{Views, node_of, apply_request-InStep}
use token_plugin.Tests.Samples.{kv, ts, alice, bob, cache_of, cache_of-Holds, ledger, world, inputs}

abbrev pub txns : TxnLedger
txns = record { State = List FeeTxn; append = λ l t. (suc (length l), t ∷ l) }

abbrev alias : Text
alias = b'n' ∷ []

abbrev fees : List (Text × ℕ)
fees = (alias, 3) ∷ []

abbrev change : List Payment
change = record { address = bob; amount = 12 } ∷ []

abbrev prev : PrevResult
prev = record { seq_no = 9; req_id = some 7; txn_time = some 100 }

abbrev request : Request
request = record {
  is_xfer = false;
  inputs = [];
  outputs = [];
  fees =
      FeesAttr.given
        (record { inputs = inputs; change = some change; signatures = some (alice ∷ bob ∷ []) });
}

abbrev state : FeesState kv ts txns
state = record {
  world = world;
  ledger = [];
  tracker = record { fees_in_current_batch = 0; deducted_fees = [] };
}

fees_accepted : authorize kv (cache_of ledger) fees (some alias) request ≡ ok accepted
unfolding sum_inputs group_inputs add_seq_no sum_groups get_amounts init sum_amounts text_eq text_of
    join split str int fees_get token_plugin.Token.sum_outputs
fees_accepted = (authorize_iff kv (cache_of ledger) fees (some alias) request).1 refl

two_unique : AreUnique (alice ∷ bob ∷ [])
unfolding text_eq
two_unique = (refl, (refl, tt))

apply_request_charges_example :
    let q = apply_request kv ts txns 1 alias prev request state in
    (v' : Ledger) × (q.0 ≡ ok tt)
    × Charged kv ts txns state q.1 alias 9 v'
    × (q.1.ledger
        ≡ (txns.append []
            (fees_txn kv ts txns 1 prev inputs change (alice ∷ bob ∷ []) (cache_of ledger))).1)
    × (supply (alice ∷ bob ∷ []) v' + fees_get fees (some alias) ≡ supply (alice ∷ bob ∷ []) ledger)
unfolding text_eq
apply_request_charges_example =
    apply_request_charges kv ts txns (alice ∷ bob ∷ []) two_unique fees (some alias) 1 alias prev
      inputs [] change [] (alice ∷ bob ∷ []) state ledger (cache_of-Holds ledger false)
      (refl, (refl, tt)) (refl, tt) (refl, (refl, tt)) fees_accepted

-- A transfer of the same inputs and outputs.
abbrev fee_payload : Payload
fee_payload = record { inputs = inputs; outputs = change }

abbrev authorized : Payload → Result (Unit {0})
authorized p =
    elim (authorize kv (cache_of ledger) fees (some alias) (xfer_request p FeesAttr.missing)) [
      | ok v ↦ elim v [ accepted ↦ ok tt | refused r ↦ err Exn.unauthorized ]
      | err e ↦ err e
    ]

transfer_accepted :
    authorize kv (cache_of ledger) fees (some alias) (xfer_request fee_payload FeesAttr.missing)
    ≡ ok accepted
unfolding sum_inputs group_inputs add_seq_no sum_groups get_amounts init sum_amounts text_eq text_of
    join split str int fees_get token_plugin.Token.sum_outputs
transfer_accepted =
    (authorize_iff kv (cache_of ledger) fees (some alias)
        (xfer_request fee_payload FeesAttr.missing)).1
      refl

transfer_validated : xfer_fee_dynamic_validation authorized fee_payload ≡ ok tt
unfolding xfer_fee_dynamic_validation
transfer_validated = rw (transfer_accepted, authorized) refl

xfer_fee_charges_example :
    (v' : Ledger) × ((xfer_update_state kv ts fee_payload 3 false world).0 ≡ ok tt)
    × Holds kv (xfer_update_state kv ts fee_payload 3 false world).1.cache false v'
    × (supply (alice ∷ bob ∷ []) v' + fees_get fees (some alias) ≡ supply (alice ∷ bob ∷ []) ledger)
unfolding text_eq
xfer_fee_charges_example =
    xfer_fee_charges kv ts (alice ∷ bob ∷ []) two_unique authorized fees (some alias)
      FeesAttr.missing world ledger fee_payload 3 (λ h. transfer_accepted)
      (cache_of-Holds ledger false) (refl, (refl, tt)) (refl, tt) (refl, (refl, tt))
      transfer_validated

-- The root of the state is what it has for the first output that is paid to bob, and the cache has no
-- batch.
abbrev views : Views kv ts txns counts counts_laws
views = record {
  state = λ d. (get_or [] (d (create_state_key bob 1)), []);
  cache = λ c. [];
  ledger = λ l. record { size = length l; committed = 0 };
  batches-set = λ c k v b. refl;
  size-append = λ l t. refl;
  committed-append = λ l t. refl;
  history-append = λ l t j h. refl;
}

abbrev base : Mark
base = record { state_root = []; txn_root = 0 ∷ []; size = 0 }

state-InStep :
    InStep counts counts_laws (node_of kv ts txns counts counts_laws views state (base, [])) base []
unfolding current_mark
state-InStep = record {
  tracked = refl;
  sized = refl;
  committed = refl;
  chained = tt;
  rooted = (refl, tt);
  cached = refl;
  current = record {
    grows = omega arith;
    stays = λ e. refl;
    state_moves = λ h. absurd (omega arith);
    root_moves = λ h. absurd (omega arith);
  };
}

charged_state : FeesState kv ts txns
charged_state =
    (apply_request kv ts txns 1 alias prev (fees_request inputs change (alice ∷ bob ∷ []) [] [])
      state).1

charged_root : get_or [] (charged_state.world.state (create_state_key bob 1)) ≡ str 12
unfolding charged_state str apply_request calculate_fees_from_req append_fees update_token_state
    for_each spend_input set_state on_cache spend_output get_amounts text_eq init text_of join split
    remove_seq_no as_str add_amount sum_amounts add_output add_seq_no group_inputs sum_groups
    sum_inputs calculated add_deducted_fees assign charge deducted_key get_ref_for_txn_fees
    sigs_by_address track int add_new_output amount_text create_state_key add_outputs
    token_plugin.Token.sum_outputs
charged_root = refl

charged_size : length charged_state.ledger ≡ 1
unfolding charged_state str apply_request calculate_fees_from_req append_fees update_token_state
    for_each spend_input set_state on_cache spend_output get_amounts text_eq init text_of join split
    remove_seq_no as_str add_amount sum_amounts add_output add_seq_no group_inputs sum_groups
    sum_inputs calculated add_deducted_fees assign charge deducted_key get_ref_for_txn_fees
    sigs_by_address track int add_new_output amount_text create_state_key add_outputs
    token_plugin.Token.sum_outputs
charged_size = refl

apply_request-InStep_example :
    InStep counts counts_laws
      (node_of kv ts txns counts counts_laws views charged_state (base, []))
      base
      []
unfolding charged_state
apply_request-InStep_example =
    apply_request-InStep kv ts txns counts counts_laws views 1 alias prev inputs [] change []
      (alice ∷ bob ∷ []) state (base, []) base [] state-InStep apply_request_charges_example.1
      (λ e. str-ne-nil 12 (sym charged_root ∙ e))
      (λ e. absurd (omega (arith, charged_size, ap (λ l. get_or 0 (get_elem? l 0)) e)))
