-- ===== src/Tests/Replies.antt =====
-- What GET_UTXO shows after a mint: one address with an output, and one without.
use mathlib.Core.Path.{subst}
use token_plugin.Prelude.{
  ℕ, ◌+◌, ◌≡◌, refl, ap, true, false, some, List, [], ◌∷◌, arith, if◌then◌else◌, inl, inr, sym,
}
use token_plugin.Text.{Text, text_eq}
use token_plugin.Text.Decimal.{str}
use token_plugin.Text.Split.{NoDelimiter, split, join}
use token_plugin.Errors.{ok}
use token_plugin.Errors.Exec.{for_each}
use token_plugin.Amounts.{init, add_amount, as_str}
use token_plugin.Cache.{add_output, get_amounts}
use token_plugin.Token.{create_state_key, add_new_output, set_state, on_cache, amount_text}
use token_plugin.Xfer.{mint_update_state, add_outputs}
use token_plugin.GetUtxo.Listing.{listed}
use token_plugin.GetUtxo.Total.{shown_total, AreListed}
use token_plugin.History.{here, next}
use token_plugin.History.Shown.{Reach-shown_total}
use token_plugin.Tests.Samples.{Dict, kv, ts, alice, bob, empty}
use token_plugin.Tests.Charging.{txns}
use token_plugin.Tests.Listings.{clean, key_cases}
use token_plugin.Tests.Histories.{parties, issued, issue_step, parties-AreUnique, nothing-IsSound}

abbrev clean_bob : NoDelimiter bob
clean_bob = (omega arith, tt)

abbrev minted_state : Dict
minted_state = ts.set empty (create_state_key alice 1) (str 15)

issued_state : issued.world.state ≡ minted_state
unfolding mint_update_state add_outputs for_each add_new_output set_state on_cache amount_text
    add_output get_amounts init add_amount as_str split join str text_eq create_state_key
issued_state = refl

abbrev rows_of : Text → List (Text × Text)
rows_of a = if text_eq a alice then (create_state_key alice 1, str 15) ∷ [] else []

abbrev numbers_of_alice : List (ℕ × Text)
numbers_of_alice = (1, str 15) ∷ []

alice_entries :
    (n : ℕ) (t : Text)
    → ts.get minted_state (create_state_key alice n) ≡ some t
    → listed n numbers_of_alice ≡ true
alice_entries n t e = elim (key_cases empty alice alice 1 n (str 15) t clean clean e) [
  | inl (e, one) ↦ subst (λ k. listed k numbers_of_alice ≡ true) one refl
  | inr none_left ↦ cc none_left
]

bob_entries :
    (n : ℕ) (t : Text) → ts.get minted_state (create_state_key bob n) ≡ some t → listed n [] ≡ true
unfolding text_eq
bob_entries n t e = elim (key_cases empty alice bob 1 n (str 15) t clean clean_bob e) [
  | inl (same, one) ↦ let apart : true ≡ false = ap (λ k. text_eq alice k) same in cc apart
  | inr none_left ↦ cc none_left
]

minted-AreListed : AreListed ts (λ s. s) minted_state rows_of parties
unfolding text_eq create_state_key join str
minted-AreListed = (
  (
    clean,
    record {
      numbered = numbers_of_alice;
      same = refl;
      stored = (refl, tt);
      all = alice_entries;
      once = (refl, tt);
    },
  ),
  (
    (clean_bob, record { numbered = []; same = refl; stored = tt; all = bob_entries; once = tt }),
    tt,
  ),
)

Reach-shown_total_example :
    (n : ℕ) × (shown_total (λ s. s) rows_of parties ≡ ok n) × (n + issued.fees ≡ issued.minted)
Reach-shown_total_example =
    Reach-shown_total kv ts txns parties parties-AreUnique (next here issue_step) nothing-IsSound
      (λ s. s) rows_of
      (subst (λ s. AreListed ts (λ x. x) s rows_of parties) (sym issued_state) minted-AreListed)
