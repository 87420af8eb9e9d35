-- ===== src/Xfer/Conserves.antt =====
-- Transfers follow the specification, conserve the tokens, and are never half applied once they are
-- validated; mints add what they pay out.
use token_plugin.Prelude.{ℕ, ◌+◌, ◌≡◌, ap, ◌∙◌, Bool, true, false, some, List, arith}
use mathlib.Core.Path.{subst}
use token_plugin.Text.{Text}
use token_plugin.Errors.{Result, ok, err, ◌>>=◌, >>=-eq-ok, map_err}
use token_plugin.Errors.Exec.{catch-ok, Exec, for_each, catch_as}
use token_plugin.Storage.{KvStore, TrieState}
use token_plugin.Cache.{sum_inputs}
use token_plugin.Cache.Refines.{Holds}
use token_plugin.Cache.Sums.{sum_inputs-Sums}
use token_plugin.Ledger.{Ledger, owed, AreDistinct, Sums}
use token_plugin.Ledger.Supply.{supply, AreUnique}
use token_plugin.Ledger.Transaction.{transfer, receive_step}
use token_plugin.Ledger.Transfer.{CoversInputs, CoversOutputs, transfer_total, receive_each_total}
use token_plugin.Token.{
  Payment, World, to_invalid_funds, sum_outputs, token_sum_inputs, validate_given_inputs_outputs,
}
use token_plugin.Token.Funds.{validate_given_inputs_outputs_cases}
use token_plugin.Token.Simulates.{
  Simulates, Follows, Simulates-seq, Simulates-for_each, Simulates-catch_as, spend_input-Simulates,
  add_new_output-Simulates,
}
use token_plugin.Xfer.{
  Payload, to_operation_error, to_client_message, do_validate_inputs_outputs, dynamic_validation,
  transfer_with, add_outputs, xfer_update_state, mint_update_state,
}

module _ (kv : KvStore) (ts : TrieState) where
  pub add_outputs-Simulates :
      (outputs : List Payment) (n : ℕ) (b : Bool)
      → Simulates kv ts b (add_outputs kv ts outputs n b) (for_each outputs (receive_step n))
  unfolding add_outputs
  add_outputs-Simulates outputs n b =
      Simulates-for_each kv ts b outputs _ _ (λ o. add_new_output-Simulates kv ts b _)

  pub transfer_with-Simulates :
      (r : Bool) (p : Payload) (n : ℕ) (b : Bool)
      → Simulates kv ts b
          (transfer_with kv ts r p n b)
          (catch_as to_operation_error (transfer p.inputs p.outputs n))
  unfolding transfer_with transfer
  transfer_with-Simulates r p n b = Simulates-catch_as kv ts b to_operation_error _ _ (
      Simulates-seq kv ts b _ _ _ _
        (Simulates-for_each kv ts b p.inputs _ _
          (λ i. spend_input-Simulates kv ts b i.address i.seq_no r))
        (add_outputs-Simulates p.outputs n b))

  -- From a cache that holds a ledger, on every branch `XferHandler.update_state` does to the cache
  -- what the specification's transfer does to the ledger, and raises just where it does, a
  -- `UTXOError` as an `OperationError`.
  pub xfer_update_state-Simulates :
      (p : Payload) (n : ℕ) (b : Bool)
      → Simulates kv ts b
          (xfer_update_state kv ts p n b)
          (catch_as to_operation_error (transfer p.inputs p.outputs n))
  unfolding xfer_update_state
  xfer_update_state-Simulates = transfer_with-Simulates true

  -- `MintHandler.update_state` receives its outputs, one by one.
  pub mint_update_state-Simulates :
      (outputs : List Payment) (n : ℕ) (b : Bool)
      → Simulates kv ts b
          (mint_update_state kv ts outputs n b)
          (catch_as to_operation_error (for_each outputs (receive_step n)))
  unfolding mint_update_state
  mint_update_state-Simulates outputs n b =
      Simulates-catch_as kv ts b to_operation_error _ _ (add_outputs-Simulates outputs n b)

  -- A transfer whose sums pass the validation has unspent inputs worth its outputs.
  validated-owed :
      (c : kv.Cache) (v : Ledger) (p : Payload)
      → Holds kv c false v
      → AreDistinct p.inputs
      → do_validate_inputs_outputs kv ts c p ≡ ok tt
      → owed v p.inputs ≡ some (sum_outputs p.outputs)
  unfolding do_validate_inputs_outputs token_sum_inputs
  validated-owed c v p h d e =
      go (sum_inputs kv c p.inputs false) (sum_inputs-Sums kv c false v h p.inputs d) e
    where
      go :
          (r : Result ℕ)
          → Sums r (owed v p.inputs)
          → (map_err to_client_message (map_err to_invalid_funds r) >>= λ i.
              validate_given_inputs_outputs i (sum_outputs p.outputs))
            ≡ ok tt
          → owed v p.inputs ≡ some (sum_outputs p.outputs)
      go (ok i) s e =
          s ∙ ap some ((validate_given_inputs_outputs_cases i (sum_outputs p.outputs)).0.0 e)
      go (err x) s e = cc

  -- So has one that passes `dynamic_validation`.
  pub dynamic_validation-owed :
      (validate : Payload → Result (Unit {0})) (c : kv.Cache) (v : Ledger) (p : Payload)
      → Holds kv c false v
      → AreDistinct p.inputs
      → dynamic_validation kv ts validate c p ≡ ok tt
      → owed v p.inputs ≡ some (sum_outputs p.outputs)
  unfolding dynamic_validation
  dynamic_validation-owed validate c v p h d e =
      let (u, passed, rest) =
        >>=-eq-ok (do_validate_inputs_outputs kv ts c p) (λ u. validate p) e in
      validated-owed c v p h d passed

  -- What an action that follows a successful one leaves.
  pub follows_ok :
      (b : Bool) (m : Exec (World kv ts) (Unit {0})) (n : Exec Ledger (Unit {0})) (w : World kv ts)
      (v v' : Ledger)
      → Simulates kv ts b m n
      → Holds kv w.cache b v
      → n v ≡ (ok tt, v')
      → ((m w).0 ≡ ok tt) × Holds kv (m w).1.cache b v'
  follows_ok b m n w v v' s h e = subst (λ q. Follows kv ts b (m w) q) e (s.at w v h)

  module _ (addrs : List Text) (unique : AreUnique addrs) where
    -- From a cache that holds a ledger, a transfer that passed `dynamic_validation` and names no
    -- input twice is applied whole, and any list of different addresses that has its parties holds
    -- as many tokens as before.
    pub xfer_conserves :
        (validate : Payload → Result (Unit {0})) (w : World kv ts) (v : Ledger) (p : Payload)
        (n : ℕ)
        → Holds kv w.cache false v
        → CoversInputs addrs p.inputs
        → CoversOutputs addrs p.outputs
        → AreDistinct p.inputs
        → dynamic_validation kv ts validate w.cache p ≡ ok tt
        → (v' : Ledger) × ((xfer_update_state kv ts p n false w).0 ≡ ok tt)
          × Holds kv (xfer_update_state kv ts p n false w).1.cache false v'
          × (supply addrs v' ≡ supply addrs v)
    xfer_conserves validate w v p n h ci co d e =
        let owe = dynamic_validation-owed validate w.cache v p h d e in
        let (v', done, moved) =
          transfer_total addrs unique v p.inputs p.outputs n (sum_outputs p.outputs) ci co d owe in
        let (returned, held) =
          follows_ok false _ _ w v v' (xfer_update_state-Simulates p n false) h
            (catch-ok to_operation_error (transfer p.inputs p.outputs n) v v' done) in
        (v', returned, held, omega (arith, moved))

    -- From a cache that holds a ledger a mint always succeeds, and raises what any list of different
    -- addresses that has those it pays holds by the sum of its outputs.
    pub mint_raises :
        (w : World kv ts) (v : Ledger) (outputs : List Payment) (n : ℕ) (b : Bool)
        → Holds kv w.cache b v
        → CoversOutputs addrs outputs
        → (v' : Ledger) × ((mint_update_state kv ts outputs n b w).0 ≡ ok tt)
          × Holds kv (mint_update_state kv ts outputs n b w).1.cache b v'
          × (supply addrs v' ≡ supply addrs v + sum_outputs outputs)
    mint_raises w v outputs n b h co =
        let (v', done, moved) = receive_each_total addrs unique v outputs n co in
        let (returned, held) =
          follows_ok b _ _ w v v' (mint_update_state-Simulates outputs n b) h
            (catch-ok to_operation_error (for_each outputs (receive_step n)) v v' done) in
        (v', returned, held, moved)
