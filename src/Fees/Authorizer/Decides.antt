-- ===== src/Fees/Authorizer/Decides.antt =====
-- The authorizer accepts a request exactly if it pays what is due.
use token_plugin.Prelude.{
  ℕ, zero, suc, ◌+◌, ◌≡◌, refl, ◌↔◌, Bool, true, false, Option, List, [], arith, ltb, if◌then◌else◌,
  get_or, Bool-cases, inl, inr,
}
use token_plugin.Prelude.Int.{sub_ℕ, is_positive, is_positive-sub_ℕ}
use token_plugin.Text.{Text}
use token_plugin.Errors.{Result, ok, err, ◌>>=◌, map_err}
use token_plugin.Storage.{KvStore}
use token_plugin.Cache.{Input, sum_inputs}
use token_plugin.Token.{Payment, sum_outputs, validate_given_inputs_outputs}
use token_plugin.Fees.Authorizer.{
  FeesAttr, missing, null, given, Request, fees_not_required, Verdict, accepted, refused, has_fees,
  fees_inputs, get_change_for_fees, fees_get, to_fees_error, to_verdict, calculated,
  calculate_fees_from_req, validate_fees_can_pay, try_pay_fees, can_pay_fees, pays_needlessly,
  authorize_other, authorize,
}

-- The verdict on a sum of inputs, when `r` is to be paid.
verdict_on : Result ℕ → ℕ → Result Verdict
verdict_on s r = to_verdict (map_err to_fees_error s >>= λ i. validate_given_inputs_outputs i r)

verdict_on_iff : (s : Result ℕ) (r : ℕ) → (verdict_on s r ≡ ok accepted) ↔ (s ≡ ok r)
unfolding verdict_on to_verdict validate_given_inputs_outputs to_fees_error
verdict_on_iff (ok i) r = (λ h. ground arith, λ h. ground arith)
verdict_on_iff (err e) r = (λ h. ground arith, λ h. cc h)

module _ (kv : KvStore) where
  needless_iff :
      (s : Result ℕ) (outputs : List Payment)
      → (if is_positive (calculated kv outputs s)
            then ok (refused fees_not_required)
            else verdict_on s (sum_outputs outputs + 0))
          ≡ ok accepted
        ↔ (s ≡ ok (sum_outputs outputs + 0))
  unfolding calculated
  needless_iff (ok i) outputs = elim (Bool-cases (is_positive (sub_ℕ i (sum_outputs outputs)))) [
    | inl more ↦ rw more (
      λ h. cc h,
      λ h. absurd (ground (arith, (is_positive-sub_ℕ i (sum_outputs outputs)).0 more)),
    )
    | inr less ↦ rw less (verdict_on_iff (ok i) (sum_outputs outputs + 0))
  ]
  needless_iff (err e) outputs = verdict_on_iff (err e) (sum_outputs outputs + 0)

  -- What a request has to pay: a transfer from its own inputs, any other from its fees, and one
  -- without fees nothing.
  abbrev pub Pays : kv.Cache → Request → ℕ → Type 0
  Pays cache r amount = elim r.is_xfer [
    | true ↦ sum_inputs kv cache r.inputs false ≡ ok (sum_outputs r.outputs + amount)
    | false ↦ elim r.fees [
      | given f ↦
          sum_inputs kv cache f.inputs false ≡ ok (sum_outputs (get_or [] f.change) + amount)
      | null ↦ amount ≡ 0
      | missing ↦ amount ≡ 0
    ]
  ]

  other_iff :
      (cache : kv.Cache) (inputs : List Input) (outputs : List Payment) (a : FeesAttr) (amount : ℕ)
      → let r : Request = record {
        is_xfer = false;
        inputs = inputs;
        outputs = outputs;
        fees = a;
      } in
        (authorize_other kv cache r amount ≡ ok accepted) ↔ Pays cache r amount
  unfolding authorize_other has_fees pays_needlessly calculate_fees_from_req can_pay_fees
      try_pay_fees fees_inputs get_change_for_fees validate_fees_can_pay
  other_iff cache inputs outputs missing zero = (λ h. refl, λ h. refl)
  other_iff cache inputs outputs missing (suc n) = (λ h. ground arith, λ h. ground arith)
  other_iff cache inputs outputs null zero = (λ h. refl, λ h. refl)
  other_iff cache inputs outputs null (suc n) = (λ h. ground arith, λ h. ground arith)
  other_iff cache inputs outputs (given f) zero =
      unfold verdict_on in needless_iff (sum_inputs kv cache f.inputs false) (get_or [] f.change)
  other_iff cache inputs outputs (given f) (suc n) =
      let due : ltb 0 (suc n) ≡ true = ground arith in
      rw due (
        unfold verdict_on in
        verdict_on_iff (sum_inputs kv cache f.inputs false)
          (sum_outputs (get_or [] f.change) + suc n))

  authorize_parts :
      (cache : kv.Cache) (fees : List (Text × ℕ)) (alias : Option Text) (x : Bool)
      (inputs : List Input) (outputs : List Payment) (a : FeesAttr)
      → let r : Request = record { is_xfer = x; inputs = inputs; outputs = outputs; fees = a } in
        (authorize kv cache fees alias r ≡ ok accepted) ↔ Pays cache r (fees_get fees alias)
  unfolding authorize can_pay_fees try_pay_fees validate_fees_can_pay
  authorize_parts cache fees alias true inputs outputs a =
      unfold verdict_on in
      verdict_on_iff (sum_inputs kv cache inputs false) (sum_outputs outputs + fees_get fees alias)
  authorize_parts cache fees alias false inputs outputs a =
      other_iff cache inputs outputs a (fees_get fees alias)

  -- `authorize` accepts exactly the requests that pay: with the fees of the constraint's alias, or 0,
  -- as the amount, the inputs must sum to the outputs and the amount; too much is refused like too
  -- little, and a request that is no transfer may come without fees exactly if none are due.
  pub authorize_iff :
      (cache : kv.Cache) (fees : List (Text × ℕ)) (alias : Option Text) (r : Request)
      → (authorize kv cache fees alias r ≡ ok accepted) ↔ Pays cache r (fees_get fees alias)
  authorize_iff cache fees alias r =
      authorize_parts cache fees alias r.is_xfer r.inputs r.outputs r.fees
