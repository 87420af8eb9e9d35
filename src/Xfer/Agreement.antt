-- ===== src/Xfer/Agreement.antt =====
-- A whole transfer keeps the token state and the cache in agreement, also in the version that
-- leaves spent outputs in the state with an empty value.
use mathlib.Core.Path.{subst}
use token_plugin.Prelude.{ℕ, ◌≡◌, refl, ap, sym, ◌∙◌, Bool, true, false, some, List, [], ◌∷◌}
use token_plugin.Cache.{Input}
use token_plugin.Errors.{Exn, ok}
use token_plugin.Errors.Exec
use token_plugin.Errors.Exec.{Exec, for_each, catch_as, seq-ok, seq-eq-ok, catch-ok, catch-eq-ok}
use token_plugin.Storage.{KvStore, TrieState}
use token_plugin.Ledger.{Ledger}
use token_plugin.Ledger.Fresh.{AreFresh, ArePaidOnce, AreFresh-received, AreFresh-spent}
use token_plugin.Ledger.Gone.{receive-eq}
use token_plugin.Ledger.Transaction.{spend_step, receive_step, transfer}
use token_plugin.Token.{Payment, World, add_new_output, spend_input}
use token_plugin.Token.Agreement.Steps.{Linked, AreClean, inputs-Linked, add_new_output-Linked}
use token_plugin.Xfer.Conserves.{transfer_with-Simulates}
use token_plugin.Xfer.{
  Payload, to_operation_error, add_outputs, transfer_with, xfer_update_state, xfer_100_update_state,
}

module _ (kv : KvStore) (ts : TrieState) (b : Bool) where
  pub outputs-Linked :
      (outputs : List Payment) (n : ℕ) (w : World kv ts) (v v' : Ledger)
      → Linked kv ts b w v
      → ArePaidOnce outputs
      → AreFresh n v outputs
      → for_each outputs (receive_step n) v ≡ (ok tt, v')
      → let p = add_outputs kv ts outputs n b w in (p.0 ≡ ok tt) × Linked kv ts b p.1 v'
  unfolding for_each add_outputs
  outputs-Linked [] n w v v' l once f e = (refl, subst (Linked kv ts b w) (ap (λ p. p.1) e) l)
  outputs-Linked (o ∷ os) n w v v' l once f e =
      let body = λ (j : Payment).
        add_new_output kv ts (record { address = j.address; seq_no = n; amount = some j.amount })
          b in
      let (u, first, rest) = seq-eq-ok (receive_step n o) (for_each os (receive_step n)) v v' e in
      let (returned, linked) = add_new_output-Linked kv ts b w v o n l f.0.0 f.0.1 in
      let moved = receive-eq v u o n first in
      let ih =
        outputs-Linked os n (body o w).1 u v' (subst (Linked kv ts b (body o w).1) moved linked)
          once.1
          (subst (λ x. AreFresh n x os) moved (AreFresh-received n v o.address _ os f.1 once.0))
          rest in
      let run =
        seq-ok (body o) (for_each os body) w (body o w).1 (for_each os body (body o w).1)
          (λ k. (returned k, (body o w).1)) refl in
      (ap (λ p. p.0) run ∙ ih.0, subst (λ p. Linked kv ts b p.1 v') (sym run) ih.1)

  -- Inputs are spent, then outputs added.
  abbrev pub moves : Bool → List Input → List Payment → ℕ → Exec (World kv ts) (Unit {0})
  moves r inputs outputs n =
      Exec.◌>>◌ (for_each inputs (λ i. spend_input kv ts i.address i.seq_no b r))
        (add_outputs kv ts outputs n b)

  -- The inputs and the outputs of a transaction that the specification applies.
  pub transfer-Linked :
      (r : Bool) (inputs : List Input) (outputs : List Payment) (n : ℕ) (w : World kv ts)
      (v v' : Ledger)
      → Linked kv ts b w v
      → AreClean kv ts b inputs
      → ArePaidOnce outputs
      → AreFresh n v outputs
      → transfer inputs outputs n v ≡ (ok tt, v')
      → let q = moves r inputs outputs n w in (q.0 ≡ ok tt) × Linked kv ts b q.1 v'
  unfolding transfer
  transfer-Linked r inputs outputs n w v v' l clean once f e =
      let (u, spent, received) =
        seq-eq-ok (for_each inputs spend_step) (for_each outputs (receive_step n)) v v' e in
      let (returned, linked) = inputs-Linked kv ts b r inputs w v u l clean spent in
      let front = for_each inputs (λ i. spend_input kv ts i.address i.seq_no b r) in
      let done =
        outputs-Linked outputs n (front w).1 u v' linked once
          (AreFresh-spent n v u inputs outputs f spent) received in
      let rest = add_outputs kv ts outputs n b in
      let run =
        seq-ok front rest w (front w).1 (rest (front w).1) (λ k. (returned k, (front w).1)) refl in
      (ap (λ q. q.0) run ∙ done.0, subst (λ q. Linked kv ts b q.1 v') (sym run) done.1)

  -- An action that returns does so under a handler of its exceptions.
  pub catch-Linked :
      (f : Exn → Exn) (m : Exec (World kv ts) (Unit {0})) (w : World kv ts) (v : Ledger)
      → ((m w).0 ≡ ok tt) × Linked kv ts b (m w).1 v
      → ((catch_as f m w).0 ≡ ok tt) × Linked kv ts b (catch_as f m w).1 v
  catch-Linked f m w v h =
      let whole = catch-ok f m w (m w).1 (λ k. (h.0 k, (m w).1)) in
      (ap (λ q. q.0) whole, subst (λ q. Linked kv ts b q.1 v) (sym whole) h.1)

  pub transfer_with-Linked :
      (r : Bool) (p : Payload) (n : ℕ) (w : World kv ts) (v v' : Ledger)
      → Linked kv ts b w v
      → AreClean kv ts b p.inputs
      → ArePaidOnce p.outputs
      → AreFresh n v p.outputs
      → transfer p.inputs p.outputs n v ≡ (ok tt, v')
      → let q = transfer_with kv ts r p n b w in (q.0 ≡ ok tt) × Linked kv ts b q.1 v'
  unfolding transfer_with
  transfer_with-Linked r p n w v v' l clean once f e =
      catch-Linked to_operation_error (moves r p.inputs p.outputs n) w v'
        (transfer-Linked r p.inputs p.outputs n w v v' l clean once f e)

  -- If `XferHandler.update_state` returns, for outputs that go to different addresses under a new
  -- sequence number, then so does `XferHandler100.update_state`; after either the cache holds the
  -- specification's ledger and the token state agrees with it, provided that they did before and
  -- that no address has ':' in it.
  pub xfer_update_state-Linked :
      (p : Payload) (n : ℕ) (w : World kv ts) (v : Ledger)
      → Linked kv ts b w v
      → AreClean kv ts b p.inputs
      → ArePaidOnce p.outputs
      → AreFresh n v p.outputs
      → (xfer_update_state kv ts p n b w).0 ≡ ok tt
      → let v' = (transfer p.inputs p.outputs n v).1 in
        Linked kv ts b (xfer_update_state kv ts p n b w).1 v'
        × ((xfer_100_update_state kv ts p n b w).0 ≡ ok tt)
        × Linked kv ts b (xfer_100_update_state kv ts p n b w).1 v'
  unfolding xfer_update_state xfer_100_update_state
  xfer_update_state-Linked p n w v l clean once f e =
      let same = ((transfer_with-Simulates kv ts true p n b).at w v l.held).0 in
      let spec = catch-eq-ok to_operation_error (transfer p.inputs p.outputs n) v (sym same ∙ e) in
      let (returned, linked) = transfer_with-Linked false p n w v _ l clean once f spec in
      ((transfer_with-Linked true p n w v _ l clean once f spec).1, returned, linked)
