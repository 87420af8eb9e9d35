-- ===== src/GetUtxo/Total.antt =====
-- What the outputs that GET_UTXO collects are worth together.
use token_plugin.Prelude.{
  ℕ, ◌+◌, ◌≡◌, refl, ap, sym, ◌∙◌, false, none, List, [], ◌∷◌, arith, ◌==◌, ==_iff, if◌then◌else◌,
  get_or, Bool-cases, Option-cases, inl, inr,
}
use mathlib.Core.Path.{subst}
use token_plugin.Text.{Text}
use token_plugin.Errors.{Result, ok, ◌>>=◌}
use token_plugin.Storage.{TrieState}
use token_plugin.Amounts.{Output}
use token_plugin.Amounts.Pairs.{Utxos, amount_of}
use token_plugin.Text.Split.{NoDelimiter}
use token_plugin.Ledger.{Ledger, utxos}
use token_plugin.Ledger.Once.{IsOnce, erase-IsOnce, amount_of-erase_ne, amount_of-erase_self}
use token_plugin.Ledger.Supply.{balance, supply, balance-erase, erase-some}
use token_plugin.Token.Agreement.{Agreement}
use token_plugin.GetUtxo.{collect}
use token_plugin.GetUtxo.Drains.{IsApart, AreApart}
use token_plugin.GetUtxo.Listing.{IsListing, amount_in}
use token_plugin.GetUtxo.Exact.{collect_exact}

abbrev pub total : List Output → ℕ
total [] = 0
total (o ∷ r) = get_or 0 o.amount + total r

-- What the replies for the addresses show together.
abbrev pub shown_total : (Text → Text) → (Text → List (Text × Text)) → List Text → Result ℕ
shown_total rlp rv [] = ok 0
shown_total rlp rv (a ∷ addrs) = do
  found ← collect rlp (rv a) []
  rest ← shown_total rlp rv addrs
  ok (total found + rest)

-- An address and the entries that the state has for it.
abbrev pub AreListed :
    (ts : TrieState) → (Text → Text) → ts.State → (Text → List (Text × Text)) → List Text → Type 0
AreListed ts rlp s rv [] = Unit
AreListed ts rlp s rv (a ∷ addrs) =
    (NoDelimiter a × IsListing ts rlp s a (rv a)) × AreListed ts rlp s rv addrs

apart_amount : (o : Output) (r : List Output) → IsApart o r → amount_in o.seq_no r ≡ none
apart_amount o [] h = refl
apart_amount o (p ∷ r) h = elim (Bool-cases (p.seq_no == o.seq_no)) [
  | inl same ↦ absurd (h.0 (sym ((==_iff _ _).0 same)))
  | inr differs ↦ rw differs (apart_amount o r h.1)
]

no_amounts : (ps : Utxos) → ((m : ℕ) → none ≡ amount_of m ps) → balance ps ≡ 0
no_amounts [] h = refl
no_amounts ((n, x) ∷ ps) h = ground (arith, h n)

-- The amounts of a list are those of the pairs.
abbrev AreAmounts : List Output → Utxos → Type 0
AreAmounts os ps = (m : ℕ) → amount_in m os ≡ amount_of m ps

first_amount :
    (o : Output) (r : List Output) (ps : Utxos)
    → AreAmounts (o ∷ r) ps
    → o.amount ≡ amount_of o.seq_no ps
first_amount o r ps h =
    subst (λ b. (if b then o.amount else amount_in o.seq_no r) ≡ amount_of o.seq_no ps)
      ((==_iff o.seq_no o.seq_no).1 refl) (h o.seq_no)

-- The rest has the amounts of pairs that have none under the number of the first.
rest-AreAmounts :
    (o : Output) (r : List Output) (ps qs : Utxos)
    → IsApart o r
    → AreAmounts (o ∷ r) ps
    → amount_of o.seq_no qs ≡ none
    → ((m : ℕ) → (o.seq_no == m) ≡ false → amount_of m qs ≡ amount_of m ps)
    → AreAmounts r qs
rest-AreAmounts o r ps qs d h gone others m = elim (Bool-cases (o.seq_no == m)) [
  | inl same ↦
      subst (λ k. amount_in k r ≡ amount_of k qs) ((==_iff o.seq_no m).0 same)
        (apart_amount o r d ∙ sym gone)
  | inr differs ↦
      subst (λ b. (if b then o.amount else amount_in m r) ≡ amount_of m ps) differs (h m)
      ∙ sym (others m differs)
]

-- Outputs with numbers of their own are worth what pairs with the same amounts are.
total_eq :
    (os : List Output) (ps : Utxos)
    → AreApart os
    → IsOnce ps
    → AreAmounts os ps
    → total os ≡ balance ps
total_eq [] ps d u h = sym (no_amounts ps h)
total_eq (o ∷ r) ps d u h = elim (Option-cases o.amount) [
  | inl empty ↦
      let rest =
        total_eq r ps d.1 u
          (rest-AreAmounts o r ps ps d.0 h (sym (first_amount o r ps h) ∙ empty) (λ m e. refl)) in
      rw empty (omega (arith, rest))
  | inr (x, there) ↦
      let held = sym (first_amount o r ps h) ∙ there in
      let (qs, left) = erase-some o.seq_no ps x held in
      let rest = total_eq r qs d.1 (erase-IsOnce o.seq_no ps qs u left) (
        rest-AreAmounts o r ps qs d.0 h (amount_of-erase_self o.seq_no ps qs u left)
          (λ m e. amount_of-erase_ne o.seq_no m ps qs e left)) in
      rw there (omega (arith, rest, balance-erase o.seq_no ps qs x held left))
]

-- The replies for all the addresses show what they hold in the specification.
pub shown_total-supply :
    (ts : TrieState) (rlp : Text → Text) (s : ts.State) (v : Ledger)
    (rv : Text → List (Text × Text)) (addrs : List Text)
    → Agreement ts s v
    → AreListed ts rlp s rv addrs
    → shown_total rlp rv addrs ≡ ok (supply addrs v)
shown_total-supply ts rlp s v rv [] g h = refl
shown_total-supply ts rlp s v rv (a ∷ addrs) g ((clean, l), h) =
    let (found, run, sorted, apart, owned, amounts) = collect_exact ts rlp s v a clean g (rv a) l in
    let rest = shown_total-supply ts rlp s v rv addrs g h in
    rw (run, rest)
      (ap (λ n. ok (n + supply addrs v)) (total_eq found (utxos v a) apart (g.once a) amounts))
