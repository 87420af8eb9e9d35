-- ===== src/Fees/Authorizer.antt =====
-- `FeesAuthorizer` of sovtokenfees/sovtokenfees/fees_authorizer.py. The constraint's metadata and the
-- deserialised fees of the config state are arguments; log lines and message texts are left out.
pub mod Decides
use token_plugin.Prelude.{
  ℕ, zero, suc, ◌+◌, Bool, true, false, Option, none, some, List, [], ◌∷◌, ltb, if◌then◌else◌,
  get_or, ◌&&◌, not,
}
use token_plugin.Prelude.Int.{ℤ, pos, sub_ℕ, is_positive}
use token_plugin.Text.{Text, text_eq}
use token_plugin.Errors.{Exn, Result, ok, err, ◌>>=◌, ◌>>◌, is_utxo_error, map_err}
use token_plugin.Storage.{KvStore}
use token_plugin.Cache.{Input, sum_inputs}
use token_plugin.Token.{Payment, sum_outputs, validate_given_inputs_outputs}

-- `request.fees`: the inputs, and the change and the signatures if a second and a third item are
-- there.
pub record FeesField : Type 0 where
  pub inputs : List Input
  pub change : Option (List Payment)
  pub signatures : Option (List Text)

-- The attribute is missing, is None, or is there.
pub data FeesAttr : Type 0 where
  missing null : FeesAttr
  given : FeesField → FeesAttr

pub record Request : Type 0 where
  pub is_xfer : Bool
  pub inputs : List Input
  pub outputs : List Payment
  pub fees : FeesAttr

-- The result of `authorize`; the reason stands for the text beside the Boolean.
pub data Reason : Type 0 where
  fees_required fees_not_required : Reason
  cannot_pay : Exn → Reason

pub data Verdict : Type 0 where
  accepted : Verdict
  refused : Reason → Verdict

unfoldable pub has_fees : Request → Bool
has_fees r = elim r.fees [ given f ↦ true | null ↦ false | missing ↦ false ]

-- `request.fees[0]`, which None and a missing attribute do not have.
unfoldable pub fees_inputs : FeesAttr → Result (List Input)
fees_inputs missing = err Exn.plain_exception
fees_inputs null = err Exn.plain_exception
fees_inputs (given f) = ok f.inputs

unfoldable pub get_change_for_fees : FeesAttr → Result (List Payment)
get_change_for_fees missing = err Exn.plain_exception
get_change_for_fees null = err Exn.plain_exception
get_change_for_fees (given f) = ok (get_or [] f.change)

-- The fees alias of the constraint's metadata and the fees of the state: `fees.get(alias, 0)`.
unfoldable pub fees_get : List (Text × ℕ) → Option Text → ℕ
fees_get fees none = 0
fees_get [] (some alias) = 0
fees_get ((k, x) ∷ fees) (some alias) = if text_eq k alias then x else fees_get fees (some alias)

-- `except UTXOError` and `except Exception` of `_validate_fees_can_pay`.
unfoldable pub to_fees_error : Exn → Exn
to_fees_error e = if is_utxo_error e then Exn.invalid_funds else Exn.unauthorized

-- The exceptions that `can_pay_fees` turns into a refusal.
unfoldable pub is_refusal : Exn → Bool
is_refusal Exn.invalid_funds = true
is_refusal Exn.unauthorized = true
is_refusal Exn.extra_funds = true
is_refusal Exn.insufficient_funds = true
is_refusal Exn.invalid_client_message = true
is_refusal _ = false

unfoldable pub to_verdict : Result (Unit {0}) → Result Verdict
unfolding is_refusal
to_verdict (ok x) = ok accepted
to_verdict (err e) = if is_refusal e then ok (refused (cannot_pay e)) else err e

module _ (kv : KvStore) where
  unfoldable pub calculated : List Payment → Result ℕ → ℤ
  calculated outputs (ok inputs_sum) = sub_ℕ inputs_sum (sum_outputs outputs)
  calculated outputs (err e) = pos 0

  unfoldable pub calculate_fees_from_req : kv.Cache → Request → Result ℤ
  unfolding calculated
  calculate_fees_from_req cache r = elim r.fees [
    | missing ↦ ok (calculated r.outputs (sum_inputs kv cache r.inputs false))
    | null ↦ err Exn.plain_exception
    | given f ↦ ok (calculated (get_or [] f.change) (sum_inputs kv cache f.inputs false))
  ]

  unfoldable pub validate_fees_can_pay :
      kv.Cache → List Input → List Payment → ℕ → Result (Unit {0})
  validate_fees_can_pay cache inputs outputs required_fees = do
    inputs_sum ← map_err to_fees_error (sum_inputs kv cache inputs false)
    validate_given_inputs_outputs inputs_sum (sum_outputs outputs + required_fees)

  -- `_can_pay_fees`
  unfoldable pub try_pay_fees : kv.Cache → Request → ℕ → Result (Unit {0})
  try_pay_fees cache r required_fees =
      if r.is_xfer then validate_fees_can_pay cache r.inputs r.outputs required_fees else (do
        inputs ← fees_inputs r.fees
        change ← get_change_for_fees r.fees
        validate_fees_can_pay cache inputs change required_fees)

  unfoldable pub can_pay_fees : kv.Cache → Request → ℕ → Result Verdict
  can_pay_fees cache r required_fees = to_verdict (try_pay_fees cache r required_fees)

  -- The second test of `authorize`: fees are given, and would pay something.
  unfoldable pub pays_needlessly : kv.Cache → Request → Result Bool
  pays_needlessly cache r =
      if has_fees r then (do x ← calculate_fees_from_req cache r; ok (is_positive x)) else ok false

  -- `authorize`, from the fees amount on, for a request that is no transfer.
  unfoldable pub authorize_other : kv.Cache → Request → ℕ → Result Verdict
  authorize_other cache r amount =
      if ltb 0 amount
      then (if has_fees r then can_pay_fees cache r amount else ok (refused fees_required))
      else (do
        needless ← pays_needlessly cache r
        if needless
            then ok (refused fees_not_required)
            else if has_fees r
            then can_pay_fees cache r amount
            else ok accepted)

  unfoldable pub authorize : kv.Cache → List (Text × ℕ) → Option Text → Request → Result Verdict
  unfolding authorize_other
  authorize cache fees alias r =
      let amount = fees_get fees alias in
      if r.is_xfer then can_pay_fees cache r amount else authorize_other cache r amount
