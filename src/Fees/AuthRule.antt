-- ===== src/Fees/AuthRule.antt =====
-- The validation of AUTH_RULE and AUTH_RULES against the current fees:
-- sovtokenfees/sovtokenfees/req_handlers/write_handlers/{auth_rule,auth_rules}_fee_handler.py. The
-- constraints that indy builds from the request are arguments.
pub mod Aliases
use token_plugin.Prelude.{
  ℕ, Bool, true, false, Option, none, some, List, [], ◌∷◌, ◌++◌, is_empty, if◌then◌else◌,
}
use token_plugin.Text.{Text, text_eq}
use token_plugin.Errors.{Exn, Result, ok, err, ◌>>◌}
use token_plugin.Fees.SetFees.{Fees}

-- An auth constraint by its `constraint_id`: forbidden, a role with the fees alias of its metadata,
-- or a combination (AND, OR) of constraints.
mutual
  pub data Constraint : Type 0 where
    forbidden : Constraint
    role : Option Text → Constraint
    combined : Constraints → Constraint

  pub data Constraints : Type 0 where
    nil : Constraints
    cons : Constraint → Constraints → Constraints

-- `alias in current_fees`
unfoldable pub has_alias : Text → Fees → Bool
has_alias a [] = false
has_alias a ((k, x) ∷ d) = if text_eq k a then true else has_alias a d

-- An alias that is None or empty is false.
unfoldable pub check_alias : Fees → Option Text → List Text → List Text
check_alias current_fees none wrong_aliases = wrong_aliases
check_alias current_fees (some a) wrong_aliases =
    if is_empty a
    then wrong_aliases
    else if has_alias a current_fees
    then wrong_aliases
    else wrong_aliases ++ a ∷ []

unfoldable mutual
  unfolding check_alias

  pub validate_metadata : Fees → Constraint → List Text → List Text
  validate_metadata current_fees forbidden wrong_aliases = wrong_aliases
  validate_metadata current_fees (role alias) wrong_aliases =
      check_alias current_fees alias wrong_aliases
  validate_metadata current_fees (combined cs) wrong_aliases =
      validate_each current_fees cs wrong_aliases

  pub validate_each : Fees → Constraints → List Text → List Text
  validate_each current_fees nil wrong_aliases = wrong_aliases
  validate_each current_fees (cons c cs) wrong_aliases =
      validate_each current_fees cs (validate_metadata current_fees c wrong_aliases)

-- `AuthRuleFeeHandler.fees_specific_validation`
unfoldable pub fees_specific_validation : Fees → Constraint → Result (Unit {0})
fees_specific_validation current_fees c =
    if is_empty (validate_metadata current_fees c []) then ok tt else err Exn.invalid_client_message

-- `AuthRulesFeeHandler.fees_specific_validation`: the loop over the constraints of the rules.
unfoldable pub rules_specific_validation : Fees → List Constraint → Result (Unit {0})
rules_specific_validation current_fees [] = ok tt
rules_specific_validation current_fees (c ∷ cs) =
    fees_specific_validation current_fees c >> rules_specific_validation current_fees cs
