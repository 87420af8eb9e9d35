-- ===== src/Tests/Histories.antt =====
-- A mint and a transfer, from nothing.
use token_plugin.Prelude.{◌+◌, ◌≡◌, ◌≢◌, refl, false, none, List, [], ◌∷◌, arith}
use token_plugin.Text.{Text, text_eq}
use token_plugin.Text.Decimal.{str, int}
use token_plugin.Text.Split.{split, join}
use token_plugin.Errors.{Result, ok}
use token_plugin.Errors.Exec.{for_each}
use token_plugin.Amounts.{init, add_amount, as_str, sum_amounts}
use token_plugin.Amounts.Pairs.{text_of}
use token_plugin.Cache.{add_output, sum_inputs, group_inputs, add_seq_no, get_amounts, sum_groups}
use token_plugin.Ledger.Supply.{AreUnique}
use token_plugin.Token.{
  Payment, sum_outputs, token_sum_inputs, validate_given_inputs_outputs, add_new_output, set_state,
  on_cache,
}
use token_plugin.Xfer.{
  Payload, dynamic_validation, do_validate_inputs_outputs, add_outputs, xfer_update_state,
  mint_update_state,
}
use token_plugin.Fees.Authorizer.{FeesAttr, accepted, authorize}
use token_plugin.Fees.Domain.{fees_request}
use token_plugin.Fees.TransferFee.{xfer_request}
use token_plugin.History.{Node, Step, xfer, mint, here, next}
use token_plugin.History.Sound.{IsSound, start-IsSound, Step-IsSound, Reach-IsSound}
use token_plugin.History.Spent.{spent_forever}
use token_plugin.Tests.Samples.{kv, ts, alice, bob, empty, outputs}
use token_plugin.Tests.Charging.{txns}

abbrev pub parties : List Text
parties = alice ∷ bob ∷ []

abbrev pub nothing : Node kv ts txns parties
nothing = record {
  world = record { state = empty; cache = (empty, empty) };
  last = 0;
  minted = 0;
  fees = 0;
}

abbrev pub issue : List Payment
issue = record { address = alice; amount = 15 } ∷ []

abbrev payload : Payload
payload = record { inputs = record { address = alice; seq_no = 1 } ∷ []; outputs = outputs }

abbrev no_rule : Payload → Result (Unit {0})
no_rule p = ok tt

pub parties-AreUnique : AreUnique parties
unfolding text_eq
parties-AreUnique = (refl, (refl, tt))

pub nothing-IsSound : IsSound kv ts txns parties parties-AreUnique nothing
nothing-IsSound =
    start-IsSound kv ts txns parties parties-AreUnique nothing (λ k. refl) (λ k. refl) refl

-- After the mint, and after the transfer of what it paid.
abbrev pub issued : Node kv ts txns parties
issued = record nothing {
  world = (mint_update_state kv ts issue 1 false nothing.world).1;
  last = 1;
  minted = 0 + sum_outputs issue;
}

abbrev paid : Node kv ts txns parties
paid = record issued { world = (xfer_update_state kv ts payload 2 false issued.world).1; last = 2 }

pub issue_step : Step kv ts txns parties nothing issued
unfolding text_eq
issue_step = mint nothing issue 1 (omega arith) ((refl, tt), (refl, tt), ((omega arith, tt), tt))

payload_valid : dynamic_validation kv ts no_rule issued.world.cache payload ≡ ok tt
unfolding dynamic_validation do_validate_inputs_outputs token_sum_inputs sum_outputs
    validate_given_inputs_outputs mint_update_state add_outputs for_each add_new_output set_state
    on_cache add_output get_amounts init add_amount as_str sum_inputs group_inputs add_seq_no
    sum_groups sum_amounts text_eq text_of join split str int
payload_valid = refl

payload_step : Step kv ts txns parties issued paid
unfolding text_eq
payload_step =
    xfer issued no_rule payload 2 (omega arith) ((refl, tt), ((omega arith, tt), tt), (refl, tt))
      ((refl, (refl, tt)), (refl, (refl, tt)), ((omega arith, tt), ((omega arith, tt), tt)))
      payload_valid

Reach-IsSound_example : IsSound kv ts txns parties parties-AreUnique paid
Reach-IsSound_example =
    Reach-IsSound kv ts txns parties parties-AreUnique (next (next here issue_step) payload_step)
      nothing-IsSound

spent_forever_example :
    (dynamic_validation kv ts no_rule paid.world.cache payload ≢ ok tt)
    × (authorize kv paid.world.cache [] none (xfer_request payload FeesAttr.missing) ≢ ok accepted)
    × (authorize kv paid.world.cache [] none (fees_request payload.inputs outputs [] [] [])
        ≢ ok accepted)
unfolding text_eq payload_step
spent_forever_example =
    spent_forever kv ts txns parties parties-AreUnique (record { address = alice; seq_no = 1 })
      payload_step refl here
      (Step-IsSound kv ts txns parties parties-AreUnique issue_step nothing-IsSound) no_rule payload
      [] none FeesAttr.missing [] [] [] refl (refl, tt)
