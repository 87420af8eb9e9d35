-- ===== src/Token/Simulates.antt =====
-- Actions on the token state and the cache that follow actions on the specification: the same
-- result, and the cache again holds the ledger. One rule for each way to build an action.
use token_plugin.Prelude.{ℕ, ◌≡◌, refl, ap, Bool, List, [], ◌∷◌}
use token_plugin.Text.{Text}
use token_plugin.Errors.{Exn, Result, ok, err}
use token_plugin.Errors.Exec.{Exec, ◌>>◌, for_each, catch_as}
use token_plugin.Storage.{KvStore, TrieState}
use token_plugin.Amounts.{Output}
use token_plugin.Cache.Refines.{Holds, Agrees, add_output-Agrees, spend_output-Agrees}
use token_plugin.Ledger.{Ledger, receive, spend}
use token_plugin.Ledger.Transaction.{step}
use token_plugin.Token.{World, set_state, on_cache, spend_input, add_new_output}

module _ (kv : KvStore) (ts : TrieState) (b : Bool) where
  abbrev pub Follows : Result (Unit {0}) × World kv ts → Result (Unit {0}) × Ledger → Type 0
  Follows p q = (p.0 ≡ q.0) × Holds kv p.1.cache b q.1

  pub record Simulates (m : Exec (World kv ts) (Unit {0})) (n : Exec Ledger (Unit {0}))
      : Type 0 where
    pub at : (w : World kv ts) (v : Ledger) → Holds kv w.cache b v → Follows (m w) (n v)

  Follows-continue :
      (p : Result (Unit {0}) × World kv ts) (q : Result (Unit {0}) × Ledger)
      (k : Exec (World kv ts) (Unit {0})) (l : Exec Ledger (Unit {0}))
      → Follows p q
      → Simulates k l
      → Follows (((λ w. p) >> k) p.1) (((λ v. q) >> l) q.1)
  Follows-continue (ok x, w) (ok y, v) k l h s = s.at w v h.1
  Follows-continue (ok x, w) (err e, v) k l h s = cc (h.0)
  Follows-continue (err e, w) (ok y, v) k l h s = cc (h.0)
  Follows-continue (err e, w) (err f, v) k l h s = h

  pub Simulates-seq :
      (m k : Exec (World kv ts) (Unit {0})) (n l : Exec Ledger (Unit {0}))
      → Simulates m n
      → Simulates k l
      → Simulates (m >> k) (n >> l)
  Simulates-seq m k n l s t = record {
    at = λ w v h. Follows-continue (m w) (n v) k l (s.at w v h) t;
  }

  pub Simulates-for_each :
      {A : Type 0} (xs : List A) (body : A → Exec (World kv ts) (Unit {0}))
      (spec : A → Exec Ledger (Unit {0}))
      → ((x : A) → Simulates (body x) (spec x))
      → Simulates (for_each xs body) (for_each xs spec)
  unfolding for_each
  Simulates-for_each [] body spec s = record { at = λ w v h. (refl, h) }
  Simulates-for_each (x ∷ xs) body spec s =
      Simulates-seq _ _ _ _ (s x) (Simulates-for_each xs body spec s)

  Follows-on_cache :
      (c c' : Result kv.Cache) (w : World kv ts) (v : Ledger) (r : Result Ledger)
      → Holds kv w.cache b v
      → Agrees kv b c r
      → Follows (on_cache kv ts (λ x. c) w) (step (λ x. r) v)
  unfolding on_cache step
  Follows-on_cache (ok c) c' w v (ok v') h a = (refl, a)
  Follows-on_cache (ok c) c' w v (err e) h a = absurd a
  Follows-on_cache (err e) c' w v (ok v') h a = absurd a
  Follows-on_cache (err e) c' w v (err f) h a = (ap err a, h)

  -- A write of the token state does not touch the cache.
  pub Simulates-on_cache :
      (f : ts.State → ts.State) (g : kv.Cache → Result kv.Cache) (r : Ledger → Result Ledger)
      → ((c : kv.Cache) (v : Ledger) → Holds kv c b v → Agrees kv b (g c) (r v))
      → Simulates (set_state kv ts f >> on_cache kv ts g) (step r)
  unfolding set_state on_cache step
  Simulates-on_cache f g r a = record {
    at = λ w v h.
        Follows-on_cache (g w.cache) (g w.cache) (record w { state = f w.state }) v (r v) h
          (a w.cache v h);
  }

  pub spend_input-Simulates :
      (a : Text) (n : ℕ) (remove_spent : Bool)
      → Simulates (spend_input kv ts a n b remove_spent) (step (λ v. spend v a n))
  unfolding spend_input
  spend_input-Simulates a n remove_spent =
      Simulates-on_cache _ _ _ (λ c v h. spend_output-Agrees kv c b v _ h)

  pub add_new_output-Simulates :
      (o : Output)
      → Simulates (add_new_output kv ts o b) (step (λ v. receive v o.address o.seq_no o.amount))
  unfolding add_new_output
  add_new_output-Simulates o = Simulates-on_cache _ _ _ (λ c v h. add_output-Agrees kv c b v o h)

  pub Simulates-catch_as :
      (f : Exn → Exn) (m : Exec (World kv ts) (Unit {0})) (n : Exec Ledger (Unit {0}))
      → Simulates m n
      → Simulates (catch_as f m) (catch_as f n)
  Simulates-catch_as f m n s = record { at = λ w v h. go (m w) (n v) (s.at w v h) }
    where
      go :
          (p : Result (Unit {0}) × World kv ts) (q : Result (Unit {0}) × Ledger)
          → Follows p q
          → Follows (catch_as f (λ w. p) p.1) (catch_as f (λ v. q) q.1)
      go (ok x, w) (ok y, v) h = h
      go (ok x, w) (err e, v) h = cc (h.0)
      go (err e, w) (ok y, v) h = cc (h.0)
      go (err e, w) (err g, v) h = (cc (h.0), h.1)
