-- ===== src/Token/Funds.antt =====
-- `validate_given_inputs_outputs` accepts exactly equal sums and names the kind of mismatch.
use token_plugin.Prelude.{ℕ, ◌<◌, ◌≡◌, ◌≢◌, ◌↔◌, arith}
use token_plugin.Errors.{Exn, ok, err}
use token_plugin.Token.{validate_given_inputs_outputs}

-- The funds are accepted exactly if the inputs equal the required amount; more is
-- `ExtraFundsError`, less is `InsufficientFundsError`, and no other error is raised.
pub validate_given_inputs_outputs_cases :
    (i r : ℕ)
    → ((validate_given_inputs_outputs i r ≡ ok tt) ↔ (i ≡ r))
      × ((validate_given_inputs_outputs i r ≡ err Exn.extra_funds) ↔ (r < i))
      × ((validate_given_inputs_outputs i r ≡ err Exn.insufficient_funds) ↔ (i < r))
      × (validate_given_inputs_outputs i r ≢ err Exn.invalid_client_message)
unfolding validate_given_inputs_outputs
validate_given_inputs_outputs_cases i r = (
  (λ h. ground arith, λ h. ground arith),
  (λ h. ground arith, λ h. ground arith),
  (λ h. ground arith, λ h. ground arith),
  λ h. ground arith,
)
