-- ===== src/Token/Agreement/Steps.antt =====
-- Transfers keep the token state and the cache in agreement.
use mathlib.Core.Path.{subst}
use token_plugin.Prelude.{
  ℕ, ◌≡◌, refl, ap, sym, ◌∙◌, Bool, true, false, none, some, List, [], ◌∷◌, ◌++◌, if◌then◌else◌,
  All,
}
use token_plugin.Text.{Text}
use token_plugin.Text.Split.{NoDelimiter}
use token_plugin.Errors.{Result, ok, err}
use token_plugin.Errors.Exec.{for_each, seq-ok, seq-eq-ok}
use token_plugin.Storage.{KvStore, TrieState}
use token_plugin.Amounts.{Output}
use token_plugin.Amounts.Pairs.{Utxos, erase, amount_of}
use token_plugin.Cache.{Input}
use token_plugin.Cache.Refines.{Holds}
use token_plugin.Ledger.{Ledger, utxos, update}
use token_plugin.Ledger.Fresh.{spend-eq-ok, step-eq-ok}
use token_plugin.Ledger.Transaction.{step, spend_step}
use token_plugin.Token.{
  Payment, World, set_state, on_cache, spend_input, add_new_output, create_state_key, amount_text,
}
use token_plugin.Token.Simulates.{Follows, spend_input-Simulates, add_new_output-Simulates}
use token_plugin.Token.Agreement.{Agreement, remove-Agreement, empty-Agreement, set-Agreement}

module _ (kv : KvStore) (ts : TrieState) (b : Bool) where
  -- The cache holds the ledger, and the state agrees with it.
  pub record Linked (w : World kv ts) (v : Ledger) : Type 0 where
    pub held : Holds kv w.cache b v
    pub agreed : Agreement ts w.state v

  state-on_cache :
      (f : kv.Cache → Result kv.Cache) (w : World kv ts) → (on_cache kv ts f w).1.state ≡ w.state
  unfolding on_cache
  state-on_cache f w = go (f w.cache)
    where
      go : (r : Result kv.Cache) → (on_cache kv ts (λ c. r) w).1.state ≡ w.state
      go (ok c) = refl
      go (err e) = refl

  state-spend_input :
      (w : World kv ts) (a : Text) (n : ℕ) (remove_spent : Bool)
      → (spend_input kv ts a n b remove_spent w).1.state ≡ (
          if remove_spent
          then ts.remove w.state (create_state_key a n)
          else ts.set w.state (create_state_key a n) [])
  unfolding spend_input set_state
  state-spend_input w a n remove_spent = state-on_cache _ _

  state-add_new_output :
      (w : World kv ts) (o : Output)
      → (add_new_output kv ts o b w).1.state
        ≡ ts.set w.state (create_state_key o.address o.seq_no) (amount_text o.amount)
  unfolding add_new_output set_state
  state-add_new_output w o = state-on_cache _ _

  spent-Agreement :
      (remove_spent : Bool) (s : ts.State) (v : Ledger) (k : Text) (n : ℕ) (qs : Utxos)
      → NoDelimiter k
      → Agreement ts s v
      → erase n (utxos v k) ≡ some qs
      → Agreement ts
          (if remove_spent
            then ts.remove s (create_state_key k n)
            else ts.set s (create_state_key k n) [])
          (update v k qs)
  spent-Agreement true = remove-Agreement ts
  spent-Agreement false = empty-Agreement ts

  pub spend_input-Linked :
      (w : World kv ts) (v v' : Ledger) (i : Input) (remove_spent : Bool)
      → Linked w v
      → NoDelimiter i.address
      → spend_step i v ≡ (ok tt, v')
      → ((spend_input kv ts i.address i.seq_no b remove_spent w).0 ≡ ok tt)
        × Linked (spend_input kv ts i.address i.seq_no b remove_spent w).1 v'
  spend_input-Linked w v v' i r l clean e =
      let (returned, held) =
        subst (λ q. Follows kv ts b (spend_input kv ts i.address i.seq_no b r w) q) e
          ((spend_input-Simulates kv ts b i.address i.seq_no r).at w v l.held) in
      let (qs, left, moved) = spend-eq-ok v v' i.address i.seq_no (step-eq-ok _ v v' e) in
      (
        returned,
        record {
          held = held;
          agreed =
              subst (λ s. Agreement ts s v') (sym (state-spend_input w i.address i.seq_no r))
                (subst (Agreement ts _) moved
                  (spent-Agreement r w.state v i.address i.seq_no qs clean l.agreed left));
        },
      )

  pub add_new_output-Linked :
      (w : World kv ts) (v : Ledger) (o : Payment) (n : ℕ)
      → Linked w v
      → NoDelimiter o.address
      → amount_of n (utxos v o.address) ≡ none
      → let out : Output = record { address = o.address; seq_no = n; amount = some o.amount } in
        let p = add_new_output kv ts out b w in
        (p.0 ≡ ok tt) × Linked p.1 (update v o.address (utxos v o.address ++ (n, o.amount) ∷ []))
  unfolding step amount_text
  add_new_output-Linked w v o n l clean new =
      let out : Output = record { address = o.address; seq_no = n; amount = some o.amount } in
      let (returned, held) = (add_new_output-Simulates kv ts b out).at w v l.held in
      (
        returned,
        record {
          held = held;
          agreed =
              subst
                (λ s. Agreement ts s (update v o.address (utxos v o.address ++ (n, o.amount) ∷ [])))
                (sym (state-add_new_output w out))
                (set-Agreement ts w.state v o.address n o.amount clean l.agreed new);
        },
      )

  -- None of the addresses has ':' in it.
  abbrev pub AreClean : List Input → Type 0
  AreClean = All (λ i. NoDelimiter i.address)

  pub inputs-Linked :
      (remove_spent : Bool) (inputs : List Input) (w : World kv ts) (v v' : Ledger)
      → Linked w v
      → AreClean inputs
      → for_each inputs spend_step v ≡ (ok tt, v')
      → let p = for_each inputs (λ i. spend_input kv ts i.address i.seq_no b remove_spent) w in
        (p.0 ≡ ok tt) × Linked p.1 v'
  unfolding for_each
  inputs-Linked r [] w v v' l clean e = (refl, subst (Linked w) (ap (λ p. p.1) e) l)
  inputs-Linked r (i ∷ is) w v v' l clean e =
      let body = λ (j : Input). spend_input kv ts j.address j.seq_no b r in
      let (u, first, rest) = seq-eq-ok (spend_step i) (for_each is spend_step) v v' e in
      let (returned, linked) = spend_input-Linked w v u i r l clean.0 first in
      let ih = inputs-Linked r is (body i w).1 u v' linked clean.1 rest in
      let run =
        seq-ok (body i) (for_each is body) w (body i w).1 (for_each is body (body i w).1)
          (λ k. (returned k, (body i w).1)) refl in
      (ap (λ p. p.0) run ∙ ih.0, subst (λ p. Linked p.1 v') (sym run) ih.1)
