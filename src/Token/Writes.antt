-- ===== src/Token/Writes.antt =====
-- Whatever happens, errors included, the cache is changed by writes of its store alone: what each
-- write keeps, the actions on the token state and the cache keep.
use mathlib.Core.Path.{subst}
use token_plugin.Prelude.{ℕ, ◌≡◌, refl, Bool, true, false, none, List, [], ◌∷◌}
use token_plugin.Text.{Text}
use token_plugin.Errors.{Result, ok, err, ◌>>=◌, >>=-eq-ok}
use token_plugin.Errors.Exec
use token_plugin.Errors.Exec.{Exec, for_each}
use token_plugin.Storage.{KvStore, TrieState}
use token_plugin.Amounts.{Output, UtxoAmounts, as_str, add_amount, remove_seq_no}
use token_plugin.Cache.{get_amounts, add_output, spend_output}
use token_plugin.Token.{World, set_state, on_cache, spend_input, add_new_output}

module _ (kv : KvStore) (ts : TrieState) (P : kv.Cache → Type 0)
    (keep : (c : kv.Cache) (k v : Text) (b : Bool) → P c → P (kv.set c k v b)) where
  -- The common end of both operations of the cache.
  written :
      (c c' : kv.Cache) (a : Text) (b : Bool) (m : Result UtxoAmounts)
      → P c
      → (m >>= λ u. as_str u >>= λ s. ok (kv.set c a s b)) ≡ ok c'
      → P c'
  written c c' a b m p e =
      let (u, known, rest) = >>=-eq-ok m (λ u. as_str u >>= λ s. ok (kv.set c a s b)) e in
      let (s, text, last) = >>=-eq-ok (as_str u) (λ s. ok (kv.set c a s b)) rest in
      let same : kv.set c a s b ≡ c' = ok_inj last in subst P same (keep c a s b p)
    where
      ok_inj : {x y : kv.Cache} → Result.ok x ≡ ok y → x ≡ y
      ok_inj e = cc e

  spend_output-writes :
      (c c' : kv.Cache) (o : Output) (b : Bool) → P c → spend_output kv c o b ≡ ok c' → P c'
  unfolding spend_output
  spend_output-writes c c' o b p e =
      let (u, known, rest) = >>=-eq-ok (get_amounts kv c o.address false b) _ e in
      written c c' o.address b (remove_seq_no u o.seq_no) p rest

  add_output-writes :
      (c c' : kv.Cache) (o : Output) (b : Bool) → P c → add_output kv c o b ≡ ok c' → P c'
  unfolding add_output
  add_output-writes c c' o b p e =
      let (u, known, rest) = >>=-eq-ok (get_amounts kv c o.address true b) _ e in
      written c c' o.address b (add_amount u o.seq_no o.amount) p rest

  pub record Keeps (m : Exec (World kv ts) (Unit {0})) : Type 0 where
    pub at : (w : World kv ts) → P w.cache → P (m w).1.cache

  on_cache-Keeps :
      (f : kv.Cache → Result kv.Cache)
      → ((c c' : kv.Cache) → P c → f c ≡ ok c' → P c')
      → Keeps (on_cache kv ts f)
  unfolding on_cache
  on_cache-Keeps f h = record { at = λ w p. go w p (f w.cache) (h w.cache) }
    where
      go :
          (w : World kv ts)
          → P w.cache
          → (r : Result kv.Cache) → ((c' : kv.Cache) → P w.cache → r ≡ ok c' → P c')
          → P (on_cache kv ts (λ c. r) w).1.cache
      go w p (ok c) h = h c p refl
      go w p (err e) h = p

  pub spend_input-Keeps : (a : Text) (n : ℕ) (b r : Bool) → Keeps (spend_input kv ts a n b r)
  unfolding spend_input set_state
  spend_input-Keeps a n b r =
      let rest =
        on_cache-Keeps _ (λ c c'.
          spend_output-writes c c' (record { address = a; seq_no = n; amount = none }) b) in
      record { at = λ w p. rest.at (record w { state = _ }) p }

  pub add_new_output-Keeps : (o : Output) (b : Bool) → Keeps (add_new_output kv ts o b)
  unfolding add_new_output set_state
  add_new_output-Keeps o b =
      let rest = on_cache-Keeps _ (λ c c'. add_output-writes c c' o b) in
      record { at = λ w p. rest.at (record w { state = _ }) p }

  pub Keeps-seq : (m k : Exec (World kv ts) (Unit {0})) → Keeps m → Keeps k → Keeps (Exec.◌>>◌ m k)
  Keeps-seq m k hm hk = record { at = λ w p. go w (m w) (hm.at w p) }
    where
      go :
          (w : World kv ts) (q : Result (Unit {0}) × World kv ts)
          → P q.1.cache
          → P ((Exec.◌>>◌ (λ u. q) k) w).1.cache
      go w (ok x, u) h = hk.at u h
      go w (err e, u) h = h

  pub Keeps-for_each :
      {A : Type 0} (xs : List A) (body : A → Exec (World kv ts) (Unit {0}))
      → ((x : A) → Keeps (body x))
      → Keeps (for_each xs body)
  unfolding for_each
  Keeps-for_each [] body h = record { at = λ w p. p }
  Keeps-for_each (x ∷ xs) body h =
      Keeps-seq (body x) (for_each xs body) (h x) (Keeps-for_each xs body h)
