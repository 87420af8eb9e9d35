-- ===== src/Ledger/Transaction.antt =====
-- The transactions of the token ledger on the specification: inputs are spent and outputs received
-- one by one, and what was done before an error stays done.
use token_plugin.Prelude.{ℕ, some, List}
use token_plugin.Errors.{Result, ok, err}
use token_plugin.Errors.Exec.{Exec, ◌>>◌, for_each}
use token_plugin.Cache.{Input}
use token_plugin.Token.{Payment}
use token_plugin.Ledger.{Ledger, receive, spend}

unfoldable pub step : (Ledger → Result Ledger) → Exec Ledger (Unit {0})
step f v = elim (f v) [ ok v' ↦ (ok tt, v') | err e ↦ (err e, v) ]

abbrev pub spend_step : Input → Exec Ledger (Unit {0})
spend_step i = step (λ v. spend v i.address i.seq_no)

abbrev pub receive_step : ℕ → Payment → Exec Ledger (Unit {0})
receive_step seq_no o = step (λ v. receive v o.address seq_no (some o.amount))

unfoldable pub transfer : List Input → List Payment → ℕ → Exec Ledger (Unit {0})
transfer inputs outputs seq_no =
    for_each inputs spend_step >> for_each outputs (receive_step seq_no)
