-- ===== src/Tests/Requests.antt =====
-- Requests, fees and messages at concrete data.
use token_plugin.Prelude.{
  List, ℕ, ◌≡◌, refl, ◌↔◌, false, none, some, [], ◌∷◌, arith, if◌then◌else◌, All, length, ltb,
}
use token_plugin.Text.{Text, text_eq}
use token_plugin.Errors.{ok}
use token_plugin.Amounts.{Output}
use token_plugin.Ledger.{AreDistinct}
use token_plugin.Ledger.Fresh.{ArePaidOnce}
use token_plugin.Validation.{
  Check, seen, set_of, outputs_field, inputs_field, Operation, Bases, TxnType, xfer_public,
  txn_xfer_public_validate, static_validation, outputs_validate, inputs_validate, inputs_signed,
}
use token_plugin.Validation.Dispatch.{static_req_validation, fees_field}
use token_plugin.Validation.Sound.{IsSound, static_req_validation_sound, fees_field_iff}
use token_plugin.Authn.{Crypto, verify_signtures_on_payments}
use token_plugin.Authn.Sound.{AreSigned, addresses, verify_signtures_on_payments_iff}
use token_plugin.Token.{parse_state_key}
use token_plugin.Text.Decimal.{int}
use token_plugin.Text.Split.{split}
use token_plugin.GetUtxo.{collect, add_entry, add_sorted, unpack_two, page, cut}
use token_plugin.GetUtxo.Paging.{at_least, page_from}
use token_plugin.Fees.Authorizer.{FeesAttr, Request, accepted, fees_get, authorize}
use token_plugin.Fees.Authorizer.Decides.{Pays, authorize_iff}
use token_plugin.Fees.AuthRule.{
  role, forbidden, fees_specific_validation, rules_specific_validation,
}
use token_plugin.Fees.AuthRule.Aliases.{AreKnown, rules_specific_validation_iff}
use token_plugin.Fees.ThreePhase.{
  FeesData, Message, Replica, fees_data, check_recvd_pre_prepare, add_to_pre_prepare,
}
use token_plugin.Fees.ThreePhase.Agrees.{
  AgreesWith, check_recvd_pre_prepare_iff, check-add_to_pre_prepare,
}
use token_plugin.Tests.Samples.{kv, alice, bob, cache_of, ledger, inputs, outputs}

abbrev no_message : {A : Type 0} → A → Check
no_message x = ok none

abbrev bases : Bases
bases = record { inputs = no_message; outputs = no_message }

abbrev operation : Operation
operation = record {
  txn_type = TxnType.xfer_public;
  address = none;
  from_seqno = none;
  inputs = some inputs;
  outputs = some outputs;
  signatures = some (alice ∷ alice ∷ []);
}

operation_passes : static_req_validation some no_message bases operation ≡ ok tt
unfolding static_req_validation static_validation txn_xfer_public_validate outputs_validate
    inputs_validate inputs_signed outputs_field inputs_field set_of seen text_eq
operation_passes = refl

static_req_validation_sound_example : IsSound some operation xfer_public
static_req_validation_sound_example =
    static_req_validation_sound some no_message bases operation operation_passes

fees_field_iff_example :
    (fees_field (ok none) bases no_message inputs outputs (alice ∷ bob ∷ []) ≡ ok none) ↔ (
      (no_message inputs ≡ ok none)
      × (bases.inputs inputs ≡ ok none)
      × AreDistinct inputs
      × (bases.outputs outputs ≡ ok none)
      × ArePaidOnce outputs
      × (no_message (alice ∷ bob ∷ []) ≡ ok none)
      × (length inputs ≡ length (alice ∷ bob ∷ [])))
fees_field_iff_example = fees_field_iff (ok none) bases no_message inputs outputs (alice ∷ bob ∷ [])

-- A signature is correct if it is the address.
abbrev crypto : Crypto
crypto = record {
  b58decode = some;
  b58decode_check = some;
  b58encode = λ vk. vk;
  signed_data = λ i os extra. i.address;
  verify = λ key sig msg. text_eq key sig;
}

verify_signtures_on_payments_iff_example :
    (verify_signtures_on_payments crypto inputs outputs (alice ∷ alice ∷ []) []
      ≡ ok (alice ∷ alice ∷ []))
    ↔ (AreSigned crypto outputs [] inputs (alice ∷ alice ∷ [])
        × (alice ∷ alice ∷ [] ≡ addresses inputs))
verify_signtures_on_payments_iff_example =
    verify_signtures_on_payments_iff crypto outputs [] inputs (alice ∷ alice ∷ [])
      (alice ∷ alice ∷ [])

abbrev pub output_at : ℕ → Output
output_at n = record { address = alice; seq_no = n; amount = some 1 }

page_from_example : page 10 (some 4) (output_at 3 ∷ output_at 7 ∷ []) ≡ (
    if ltb 3 4
    then cut 10 (at_least 4 (output_at 3 ∷ output_at 7 ∷ []))
    else record { outputs = []; next_seqno = none })
page_from_example = page_from 10 3 (output_at 3) (output_at 7 ∷ []) ((omega arith, tt), (tt, tt))

next_of_two : (page 1 none (output_at 3 ∷ output_at 7 ∷ [])).next_seqno ≡ some 7
unfolding page token_plugin.GetUtxo.start_at cut
next_of_two = refl

abbrev alias : Text
alias = b'n' ∷ []

abbrev request : Request
request = record {
  is_xfer = false;
  inputs = [];
  outputs = [];
  fees = FeesAttr.given (record { inputs = inputs; change = some outputs; signatures = none });
}

authorize_iff_example :
    (authorize kv (cache_of ledger) ((alias, 4) ∷ []) (some alias) request ≡ ok accepted)
    ↔ Pays kv (cache_of ledger) request (fees_get ((alias, 4) ∷ []) (some alias))
authorize_iff_example = authorize_iff kv (cache_of ledger) ((alias, 4) ∷ []) (some alias) request

rules_specific_validation_iff_example :
    ((fees_specific_validation ((alias, 4) ∷ []) forbidden ≡ ok tt)
      ↔ AreKnown ((alias, 4) ∷ []) forbidden)
    × ((rules_specific_validation ((alias, 4) ∷ []) (role (some alias) ∷ []) ≡ ok tt)
        ↔ All (AreKnown ((alias, 4) ∷ [])) (role (some alias) ∷ []))
rules_specific_validation_iff_example =
    rules_specific_validation_iff ((alias, 4) ∷ []) forbidden (role (some alias) ∷ [])

abbrev replica : Replica
replica = record {
  fees_in_current_batch = 2;
  get_state_root_hash = alice;
  get_txn_root_hash = bob;
  head_hash = alice;
  uncommitted_root_hash = bob;
  deserialize_root = λ s. s;
  str_to_hash = λ s. s;
}

abbrev domain_message : Message
domain_message = record { ledger_id = 1; plugin_fields = none }

check_recvd_pre_prepare_iff_example :
    (check_recvd_pre_prepare replica (add_to_pre_prepare replica domain_message) ≡ ok tt) ↔ (
      (d : FeesData) × (fees_data (add_to_pre_prepare replica domain_message) ≡ some d)
      × AgreesWith replica d)
unfolding add_to_pre_prepare
check_recvd_pre_prepare_iff_example =
    check_recvd_pre_prepare_iff replica (add_to_pre_prepare replica domain_message) (omega arith)
      (omega arith)

check-add_to_pre_prepare_example :
    check_recvd_pre_prepare replica (add_to_pre_prepare replica domain_message) ≡ ok tt
check-add_to_pre_prepare_example =
    check-add_to_pre_prepare replica replica domain_message refl refl refl

-- The outputs 10 and 2, and the spent output 3.
abbrev pub entries : List (Text × Text)
entries =
    (b'a' ∷ b':' ∷ b'1' ∷ b'0' ∷ [], b'5' ∷ [])
    ∷ (b'a' ∷ b':' ∷ b'2' ∷ [], b'7' ∷ [])
    ∷ (b'a' ∷ b':' ∷ b'3' ∷ [], [])
    ∷ []

abbrev pub collected : List Output
collected =
    record { address = alice; seq_no = 2; amount = some 7 }
    ∷ record { address = alice; seq_no = 10; amount = some 5 }
    ∷ []

pub collect_runs : collect (λ s. s) entries [] ≡ ok collected
unfolding collect add_entry add_sorted unpack_two parse_state_key split int
collect_runs = refl
