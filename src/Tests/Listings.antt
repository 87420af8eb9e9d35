-- ===== src/Tests/Listings.antt =====
-- The token state of an address with an output of 10 and a spent one.
use mathlib.Core.Path.{subst}
use token_plugin.Prelude.{
  ℕ, ◌≡◌, refl, true, some, List, [], ◌∷◌, arith, All, Bool-cases, ◌⊎◌, inl, inr,
}
use token_plugin.Text.{Text, text_eq, text_eq→eq}
use token_plugin.Text.Decimal.{str}
use token_plugin.Text.Split.{NoDelimiter, join}
use token_plugin.Errors.{ok}
use token_plugin.Amounts.{Output}
use token_plugin.Amounts.Pairs.{amount_of}
use token_plugin.Ledger.{Ledger, utxos, update}
use token_plugin.Token.{create_state_key}
use token_plugin.Token.Keys.{create_state_key_inj}
use token_plugin.Token.Agreement.{Agreement, empty-Agreement, set-Agreement}
use token_plugin.GetUtxo.{collect}
use token_plugin.GetUtxo.Drains.{AreApart}
use token_plugin.GetUtxo.Sorted.{IsSorted}
use token_plugin.GetUtxo.Listing.{IsListing, amount_in, listed}
use token_plugin.GetUtxo.Exact.{collect_exact}
use token_plugin.Tests.Samples.{Dict, ts, alice, empty}
use token_plugin.Tests.Ledgers.{one_output, one_world, one_world-Linked}

abbrev pub clean : NoDelimiter alice
clean = (omega arith, tt)

abbrev received : Dict
received = ts.set one_world.state (create_state_key alice 2) (str 5)

abbrev state : Dict
state = ts.set received (create_state_key alice 2) []

abbrev two_held : Ledger
two_held = update one_output alice ((1, 10) ∷ (2, 5) ∷ [])

abbrev one_left : Ledger
one_left = update two_held alice ((1, 10) ∷ [])

state-Agreement : Agreement ts state one_left
unfolding text_eq
state-Agreement =
    empty-Agreement ts received two_held alice 2 ((1, 10) ∷ []) clean
      (set-Agreement ts one_world.state one_output alice 2 5 clean one_world-Linked.agreed refl)
      refl

abbrev numbers : List (ℕ × Text)
numbers = (1, str 10) ∷ (2, []) ∷ []

abbrev rows : List (Text × Text)
rows = (create_state_key alice 1, str 10) ∷ (create_state_key alice 2, []) ∷ []

-- A key that is in a state after an entry is written is the written one or was there before.
pub key_cases :
    (s : Dict) (a b : Text) (m n : ℕ) (w t : Text)
    → NoDelimiter a
    → NoDelimiter b
    → ts.get (ts.set s (create_state_key a m) w) (create_state_key b n) ≡ some t
    → ((a ≡ b) × (m ≡ n)) ⊎ (ts.get s (create_state_key b n) ≡ some t)
key_cases s a b m n w t ha hb e =
    elim (Bool-cases (text_eq (create_state_key a m) (create_state_key b n))) [
      | inl same ↦ inl (create_state_key_inj a b m n ha hb (text_eq→eq _ _ same))
      | inr other ↦ inr (rw other at e)
    ]

all_listed :
    (n : ℕ) (t : Text) → ts.get state (create_state_key alice n) ≡ some t → listed n numbers ≡ true
all_listed n t e = elim (key_cases received alice alice 2 n [] t clean clean e) [
  | inl (e, two) ↦ subst (λ k. listed k numbers ≡ true) two refl
  | inr e' ↦ elim (key_cases one_world.state alice alice 2 n (str 5) t clean clean e') [
    | inl (e, two) ↦ subst (λ k. listed k numbers ≡ true) two refl
    | inr e'' ↦ elim (key_cases empty alice alice 1 n (str 10) t clean clean e'') [
      | inl (e, one) ↦ subst (λ k. listed k numbers ≡ true) one refl
      | inr none_left ↦ cc none_left
    ]
  ]
]

state-IsListing : IsListing ts (λ s. s) state alice rows
unfolding text_eq create_state_key join str
state-IsListing = record {
  numbered = numbers;
  same = refl;
  stored = (refl, (refl, tt));
  all = all_listed;
  once = (refl, (refl, tt));
}

collect_exact_example :
    (found : List Output) × (collect (λ s. s) rows [] ≡ ok found)
    × IsSorted found
    × AreApart found
    × All (λ o. o.address ≡ alice) found
    × ((m : ℕ) → amount_in m found ≡ amount_of m (utxos one_left alice))
collect_exact_example =
    collect_exact ts (λ s. s) state one_left alice clean state-Agreement rows state-IsListing
