-- ===== src/Cache/Sums.antt =====
-- `sum_inputs` of the cache: grouped by address as it is, it sums what the inputs hold one by one.
mod Groups
use token_plugin.Prelude.{
  ℕ, zero, suc, ◌+◌, ◌≡◌, refl, ap, sym, ◌∙◌, ◌≢◌, Bool, true, false, Option, none, some, List, [],
  ◌∷◌, ◌++◌, arith, if◌then◌else◌, get_or, Option-cases, Bool-cases, inl, inr, All,
}
use token_plugin.Text.{Text}
use token_plugin.Errors.{Exn, Result, ok, err, ◌>>=◌, is_utxo_error}
use token_plugin.Storage.{KvStore}
use token_plugin.Amounts.Pairs.{
  Utxos, holding, IsDistinct, pay, paid, plus, plus_option, sum_amounts-holding, amount_of,
}
use token_plugin.Cache.{Input, get_amounts, sum_groups, sum_inputs, group_inputs}
use token_plugin.Cache.Refines.{Holds, get_amounts-missing, get_amounts-held, written}
use token_plugin.Ledger.{Ledger, utxos, owed, AreDistinct, Sums}
use Groups.{IsGroup, group_pay, group_inputs-IsGroup, group_pay-group_inputs}

plus_zero_plus : (t x : ℕ) (o : Option ℕ) → plus (t + (0 + x)) o ≡ plus t (plus x o)
plus_zero_plus t x none = refl
plus_zero_plus t x (some y) = ap some (omega arith)

pay_nothing : (s : List ℕ) → s ≢ [] → pay [] s ≡ none
pay_nothing [] h = absurd (h refl)
pay_nothing (n ∷ s) h = refl

plus_zero : (o : Option ℕ) → plus 0 o ≡ o
plus_zero none = refl
plus_zero (some y) = ap some (omega arith)

module _ (kv : KvStore) where
  open kv use {Cache}

  module _ (c : kv.Cache) (b : Bool) (v : Ledger) (h : Holds kv c b v) where
    sum_groups-Sums :
        (d : List (Text × List ℕ)) (t : ℕ)
        → All IsGroup d
        → Sums (sum_groups kv c b d t) (plus t (group_pay v d))
    unfolding sum_groups
    sum_groups-Sums [] t g = ap some (omega arith)
    sum_groups-Sums ((a, s) ∷ d) t g = elim (Option-cases (v a)) [
      | inl missing ↦
          rw (get_amounts-missing kv c b a (h.at a ∙ ap written missing))
            (rw (missing) (rw (pay_nothing s g.0.1) (unfold is_utxo_error in (refl, refl))))
      | inr (ps, known) ↦ rw (get_amounts-held kv c b v a ps h known) (
          rw (known)
            (rw (sum_amounts-holding a ps s g.0.0) (go (λ x. sum_groups-Sums d x g.1) (pay ps s))))
    ]
      where
        go :
            ((x : ℕ) → Sums (sum_groups kv c b d x) (plus x (group_pay v d)))
            → (o : Option ℕ)
            → Sums
                (paid 0 o >>= λ total. sum_groups kv c b d (t + total))
                (plus t (plus_option o (group_pay v d)))
        go ih none = unfold is_utxo_error in (refl, refl)
        go ih (some x) = rw (sym (plus_zero_plus t x (group_pay v d))) (ih (t + (0 + x)))

    -- In a cache that holds a ledger, when no output is named twice, the sum is what the inputs hold
    -- together; when one of them is not unspent a `UTXOError` is raised, and only then.
    pub sum_inputs-Sums :
        (inputs : List Input) → AreDistinct inputs → Sums (sum_inputs kv c inputs b) (owed v inputs)
    unfolding sum_inputs
    sum_inputs-Sums inputs distinct =
        rw
          (sym (group_pay-group_inputs v inputs distinct)
            ∙ sym (plus_zero (group_pay v (group_inputs inputs []))))
          (sum_groups-Sums (group_inputs inputs []) 0 (group_inputs-IsGroup inputs [] tt))
