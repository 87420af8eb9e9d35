-- ===== src/Tests/Ledgers.antt =====
-- The cache, the token state and the ledger at concrete data.
use token_plugin.Prelude.{ℕ, ◌+◌, ◌≡◌, refl, ◌↔◌, ◌<◌, ◌≢◌, false, none, some, [], ◌∷◌, arith}
use token_plugin.Text.{text_eq}
use token_plugin.Text.Decimal.{str, int}
use token_plugin.Text.Split.{split, join}
use token_plugin.Errors.{Exn, Result, ok, err, ◌>>=◌, is_utxo_error}
use token_plugin.Errors.Exec.{catch_as}
use token_plugin.Amounts.{Output, init, sum_amounts}
use token_plugin.Amounts.Pairs.{text_of}
use token_plugin.Cache.{
  add_output, spend_output, sum_inputs, group_inputs, add_seq_no, get_amounts, sum_groups,
}
use token_plugin.Cache.Refines.{Holds, Agrees, add_output-Agrees, spend_output-Agrees}
use token_plugin.Cache.Sums.{sum_inputs-Sums}
use token_plugin.Ledger.{Ledger, utxos, update, receive, spend, owed, AreDistinct, Sums}
use token_plugin.Ledger.Supply.{supply, AreUnique}
use token_plugin.Ledger.Transaction.{transfer}
use token_plugin.Token.{
  World, sum_outputs, create_state_key, validate_given_inputs_outputs, token_sum_inputs,
}
use token_plugin.Token.Agreement.{Agreement, set-Agreement}
use token_plugin.Token.Agreement.Steps.{Linked}
use token_plugin.Token.Funds.{validate_given_inputs_outputs_cases}
use token_plugin.Token.Simulates.{Simulates}
use token_plugin.Xfer.{
  Payload, to_operation_error, dynamic_validation, xfer_update_state, xfer_100_update_state,
  mint_update_state, do_validate_inputs_outputs,
}
use token_plugin.Xfer.Conserves.{xfer_conserves, xfer_update_state-Simulates, mint_raises}
use token_plugin.Xfer.Agreement.{xfer_update_state-Linked}
use token_plugin.Tests.Samples.{
  kv, ts, alice, bob, empty, cache_of, cache_of-Holds, ledger, world, inputs, outputs,
}

abbrev payload : Payload
payload = record { inputs = inputs; outputs = outputs }

abbrev no_rule : Payload → Result (Unit {0})
no_rule p = ok tt

both_unique : AreUnique (alice ∷ bob ∷ [])
unfolding text_eq
both_unique = (refl, (refl, tt))

inputs-AreDistinct : AreDistinct inputs
unfolding text_eq
inputs-AreDistinct = (refl, (refl, tt))

inputs_sum : sum_inputs kv (cache_of ledger) inputs false ≡ ok 15
unfolding sum_inputs group_inputs add_seq_no sum_groups get_amounts init sum_amounts text_eq text_of
    join split str int
inputs_sum = refl

validated : dynamic_validation kv ts no_rule (cache_of ledger) payload ≡ ok tt
unfolding dynamic_validation do_validate_inputs_outputs token_sum_inputs sum_outputs
    validate_given_inputs_outputs
validated = rw inputs_sum refl

xfer_conserves_example :
    (v' : Ledger) × ((xfer_update_state kv ts payload 3 false world).0 ≡ ok tt)
    × Holds kv (xfer_update_state kv ts payload 3 false world).1.cache false v'
    × (supply (alice ∷ bob ∷ []) v' ≡ supply (alice ∷ bob ∷ []) ledger)
unfolding text_eq
xfer_conserves_example =
    xfer_conserves kv ts (alice ∷ bob ∷ []) both_unique no_rule world ledger payload 3
      (cache_of-Holds ledger false) (refl, (refl, tt)) (refl, (refl, tt)) inputs-AreDistinct
      validated

mint_raises_example :
    (v' : Ledger) × ((mint_update_state kv ts outputs 3 false world).0 ≡ ok tt)
    × Holds kv (mint_update_state kv ts outputs 3 false world).1.cache false v'
    × (supply (alice ∷ bob ∷ []) v' ≡ supply (alice ∷ bob ∷ []) ledger + sum_outputs outputs)
unfolding text_eq
mint_raises_example =
    mint_raises kv ts (alice ∷ bob ∷ []) both_unique world ledger outputs 3 false
      (cache_of-Holds ledger false) (refl, (refl, tt))

xfer_update_state-Simulates_example :
    Simulates kv ts false
      (xfer_update_state kv ts payload 3 false)
      (catch_as to_operation_error (transfer inputs outputs 3))
xfer_update_state-Simulates_example = xfer_update_state-Simulates kv ts payload 3 false

-- A ledger with one output of 10, in the cache and in the token state.
abbrev pub one_output : Ledger
one_output = update (λ a. none) alice ((1, 10) ∷ [])

abbrev pub one_world : World kv ts
one_world = record {
  state = ts.set empty (create_state_key alice 1) (str 10);
  cache = cache_of one_output;
}

empty-Agreement : Agreement ts empty (λ a. none)
empty-Agreement = record { at = λ a n h. refl; once = λ a. tt }

pub one_world-Linked : Linked kv ts false one_world one_output
one_world-Linked = record {
  held = cache_of-Holds one_output false;
  agreed = set-Agreement ts empty (λ a. none) alice 1 10 (omega arith, tt) empty-Agreement refl;
}

abbrev change : Payload
change = record { inputs = record { address = alice; seq_no = 1 } ∷ []; outputs = outputs }

change_returned : (xfer_update_state kv ts change 2 false one_world).0 ≡ ok tt
unfolding transfer token_plugin.Errors.Exec.for_each token_plugin.Ledger.Transaction.step text_eq
change_returned =
    ((xfer_update_state-Simulates kv ts change 2 false).at one_world one_output
      (cache_of-Holds one_output false)).0

xfer_update_state-Linked_example :
    let v' = (transfer change.inputs change.outputs 2 one_output).1 in
    Linked kv ts false (xfer_update_state kv ts change 2 false one_world).1 v'
    × ((xfer_100_update_state kv ts change 2 false one_world).0 ≡ ok tt)
    × Linked kv ts false (xfer_100_update_state kv ts change 2 false one_world).1 v'
unfolding text_eq
xfer_update_state-Linked_example =
    xfer_update_state-Linked kv ts false change 2 one_world one_output one_world-Linked
      ((omega arith, tt), tt) (refl, (refl, tt))
      (((omega arith, tt), refl), (((omega arith, tt), refl), tt)) change_returned

abbrev first_output : Output
first_output = record { address = alice; seq_no = 1; amount = none }

abbrev new_output : Output
new_output = record { address = bob; seq_no = 3; amount = some 12 }

spend_output-Agrees_example :
    Agrees kv false (spend_output kv (cache_of ledger) first_output false) (spend ledger alice 1)
spend_output-Agrees_example =
    spend_output-Agrees kv (cache_of ledger) false ledger first_output (cache_of-Holds ledger false)

add_output-Agrees_example :
    Agrees kv false
      (add_output kv (cache_of ledger) new_output false)
      (receive ledger bob 3 (some 12))
add_output-Agrees_example =
    add_output-Agrees kv (cache_of ledger) false ledger new_output (cache_of-Holds ledger false)

sum_inputs-Sums_example : Sums (sum_inputs kv (cache_of ledger) inputs false) (owed ledger inputs)
sum_inputs-Sums_example =
    sum_inputs-Sums kv (cache_of ledger) false ledger (cache_of-Holds ledger false) inputs
      inputs-AreDistinct

abbrev available : ℕ
available = 10

abbrev required : ℕ
required = 15

validate_given_inputs_outputs_cases_example :
    ((validate_given_inputs_outputs available required ≡ ok tt) ↔ (available ≡ required))
    × ((validate_given_inputs_outputs available required ≡ err Exn.extra_funds)
        ↔ (required < available))
    × ((validate_given_inputs_outputs available required ≡ err Exn.insufficient_funds)
        ↔ (available < required))
    × (validate_given_inputs_outputs available required ≢ err Exn.invalid_client_message)
validate_given_inputs_outputs_cases_example = validate_given_inputs_outputs_cases available required
