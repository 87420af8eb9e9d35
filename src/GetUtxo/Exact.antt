-- ===== src/GetUtxo/Exact.antt =====
-- A reply to GET_UTXO shows just the unspent outputs that the specification has, when the token state
-- agrees with it.
use token_plugin.Prelude.{
  ℕ, ◌≡◌, refl, ap, sym, ◌∙◌, false, Option, none, some, List, [], ◌∷◌, arith, ◌==◌, ==_iff,
  if◌then◌else◌, Bool-cases, Option-cases, inl, inr, All,
}
use mathlib.Core.Path.{subst}
use token_plugin.Text.{Text}
use token_plugin.Text.Decimal.{str, int, int-str}
use token_plugin.Text.Split.{NoDelimiter}
use token_plugin.Errors.{ok}
use token_plugin.Storage.{TrieState}
use token_plugin.Amounts.{Output}
use token_plugin.Amounts.Pairs.{amount_of}
use token_plugin.Ledger.{Ledger, utxos}
use token_plugin.Token.{create_state_key}
use token_plugin.Token.Agreement.{Agreement, live, amount_str}
use token_plugin.Token.Keys.{parse_state_key-create_state_key}
use token_plugin.GetUtxo.{add_sorted, unpack_two, add_entry, collect}
use token_plugin.GetUtxo.Sorted.{IsSorted, All-add_sorted, collect-IsSorted}
use token_plugin.GetUtxo.Drains.{AreApart}
use token_plugin.GetUtxo.Listing.{
  entries_of, listed, AreOnce, amount_in, IsListing, amount_in-add_sorted, add_sorted-AreApart,
  AreBefore, AreBefore-tail, AreBefore-IsApart,
}

module _ (ts : TrieState) (rlp : Text → Text) (s : ts.State) (v : Ledger) (a : Text)
    (clean : NoDelimiter a) (g : Agreement ts s v) where
  -- The entry of a number says what the address holds under it.
  held_in :
      (n : ℕ) (t : Text)
      → ts.get s (create_state_key a n) ≡ some t
      → live (some t) ≡ amount_str (amount_of n (utxos v a))
  held_in n t e = ap live (sym e) ∙ g.at a n clean

  spent_entry : (o : Option ℕ) → live (some []) ≡ amount_str o → o ≡ none
  spent_entry none e = refl
  spent_entry (some x) e = cc e

  absent_entry : (o : Option ℕ) → live none ≡ amount_str o → o ≡ none
  absent_entry none e = refl
  absent_entry (some x) e = cc e

  live_entry :
      (c : ℕ) (t : Text) (o : Option ℕ)
      → live (some (c ∷ t)) ≡ amount_str o
      → (x : ℕ) × (o ≡ some x) × (c ∷ t ≡ str x)
  live_entry c t none e = cc e
  live_entry c t (some x) e = (x, refl, cc e)

  -- What is collected from the entries, after outputs with other numbers.
  record IsCollected (ns : List (ℕ × Text)) (acc found : List Output) : Type 0 where
    run : collect rlp (entries_of a ns) acc ≡ ok found
    apart : AreApart found
    owned : All (λ o. o.address ≡ a) found
    amounts :
        (m : ℕ)
        → amount_in m found ≡ (if listed m ns then amount_of m (utxos v a) else amount_in m acc)

  entry_runs :
      (n : ℕ) (t : Text) (ns : List (ℕ × Text)) (acc next : List Output)
      → add_entry (a, str n) (rlp t) acc ≡ ok next
      → collect rlp (entries_of a ((n, t) ∷ ns)) acc ≡ collect rlp (entries_of a ns) next
  unfolding collect unpack_two
  entry_runs n t ns acc next e = rw (parse_state_key-create_state_key a n clean) (rw e refl)

  abbrev AreStored : List (ℕ × Text) → Type 0
  AreStored = All (λ e. ts.get s (create_state_key a e.0) ≡ some (rlp e.1))

  module _ (n : ℕ) (t : Text) (ns : List (ℕ × Text)) (acc : List Output)
      (fresh : listed n ns ≡ false) (before : AreBefore ((n, t) ∷ ns) acc) where
    -- What is found for the number of the first entry, and for any other.
    amounts_cons :
        (next found : List Output)
        → ((m : ℕ)
            → amount_in m found
              ≡ (if listed m ns then amount_of m (utxos v a) else amount_in m next))
        → ((m : ℕ)
            → amount_in m next ≡ (if n == m then amount_of n (utxos v a) else amount_in m acc))
        → (m : ℕ)
        → amount_in m found
          ≡ (if listed m ((n, t) ∷ ns) then amount_of m (utxos v a) else amount_in m acc)
    amounts_cons next found rest first m = elim (Bool-cases (n == m)) [
      | inl same ↦
          let here : n ≡ m = (==_iff n m).0 same in
          let unlisted : listed m ns ≡ false = subst (λ k. listed k ns ≡ false) here fresh in
          let value = ap (λ k. amount_of k (utxos v a)) here in
          ground (arith, rest m, first m, unlisted, same, value)
      | inr other ↦ ground (arith, rest m, first m, other)
    ]

    missing : amount_in n acc ≡ none
    missing =
        (AreBefore-IsApart n t ns acc (record { address = a; seq_no = n; amount = none }) refl
          before).1

    abbrev Rest : Type 0
    Rest =
        (next : List Output)
        → AreBefore ns next
        → AreApart next
        → All (λ o. o.address ≡ a) next
        → (found : List Output) × IsCollected ns next found

    collect_entry :
        (w : Text)
        → rlp t ≡ w
        → live (some w) ≡ amount_str (amount_of n (utxos v a))
        → AreApart acc
        → All (λ o. o.address ≡ a) acc
        → Rest
        → (found : List Output) × IsCollected ((n, t) ∷ ns) acc found
    unfolding add_entry
    collect_entry [] e says apart owned rest =
        let (found, k) = rest acc (AreBefore-tail n t ns acc before) apart owned in
        let gone = spent_entry (amount_of n (utxos v a)) says in
        (
          found,
          record {
            run = entry_runs n t ns acc acc (ap (λ w. add_entry (a, str n) w acc) e) ∙ k.run;
            apart = k.apart;
            owned = k.owned;
            amounts = amounts_cons acc found k.amounts (λ m. elim (Bool-cases (n == m)) [
              | inl same ↦
                  let here = ap (λ j. amount_in j acc) ((==_iff n m).0 same) in
                  ground (arith, same, gone, missing, here)
              | inr other ↦ rw other refl
            ]);
          },
        )
    collect_entry (c ∷ w) e says apart owned rest =
        let (x, held, written) = live_entry c w (amount_of n (utxos v a)) says in
        let o : Output = record { address = a; seq_no = n; amount = some x } in
        let (alone, absent) = AreBefore-IsApart n t ns acc o refl before in
        let next = add_sorted o acc in
        let (found, k) =
          rest next
            (All-add_sorted (λ p. listed p.seq_no ns ≡ false) o acc fresh
              (AreBefore-tail n t ns acc before))
            (add_sorted-AreApart o acc alone apart)
            (All-add_sorted (λ p. p.address ≡ a) o acc refl owned) in
        let value : int (c ∷ w) ≡ some x = ap int written ∙ int-str x in
        (
          found,
          record {
            run =
                entry_runs n t ns acc next
                  (ap (λ w. add_entry (a, str n) w acc) e ∙ rw (int-str n) (rw value refl))
                ∙ k.run;
            apart = k.apart;
            owned = k.owned;
            amounts = amounts_cons next found k.amounts (λ m.
                amount_in-add_sorted m o acc
                ∙ ap (λ y. if n == m then y else amount_in m acc) (sym held));
          },
        )

  -- The loop runs through the entries, and keeps what it finds in order and apart.
  collect_entries :
      (ns : List (ℕ × Text)) (acc : List Output)
      → AreOnce ns
      → AreStored ns
      → AreBefore ns acc
      → AreApart acc
      → All (λ o. o.address ≡ a) acc
      → (found : List Output) × IsCollected ns acc found
  unfolding collect
  collect_entries [] acc once stored before apart owned =
      (acc, record { run = refl; apart = apart; owned = owned; amounts = λ m. refl })
  collect_entries ((n, t) ∷ ns) acc once stored before apart owned =
      collect_entry n t ns acc once.0 before (rlp t) refl (held_in n (rlp t) stored.0) apart owned
        (λ next. collect_entries ns next once.1 stored.1)

  -- A number that is not listed has no entry, and the address holds nothing under it.
  unlisted_amount :
      (rv : List (Text × Text)) (l : IsListing ts rlp s a rv) (m : ℕ)
      → listed m l.numbered ≡ false
      → amount_of m (utxos v a) ≡ none
  unlisted_amount rv l m unlisted = elim (Option-cases (ts.get s (create_state_key a m))) [
    | inl e ↦ absent_entry (amount_of m (utxos v a)) (ap live (sym e) ∙ g.at a m clean)
    | inr (t, e) ↦ let there = l.all m t e in cc unlisted
  ]

  -- When the token state agrees with the specification, and the listing for an address without ':'
  -- has just its entries of the state, each once, then the outputs are collected without an error,
  -- in the order of their numbers, each of the address and with a number of its own; and for every number the amount that they give
  -- is the one that the specification has, or none where it has no unspent output with the number.
  pub collect_exact :
      (rv : List (Text × Text))
      → IsListing ts rlp s a rv
      → (found : List Output) × (collect rlp rv [] ≡ ok found)
        × IsSorted found
        × AreApart found
        × All (λ o. o.address ≡ a) found
        × ((m : ℕ) → amount_in m found ≡ amount_of m (utxos v a))
  collect_exact rv l =
      let (found, k) = collect_entries l.numbered [] l.once l.stored tt tt tt in
      let run = ap (λ r. collect rlp r []) l.same ∙ k.run in
      (
        found,
        run,
        (collect-IsSorted rlp rv found run).0,
        k.apart,
        k.owned,
        λ m. elim (Bool-cases (listed m l.numbered)) [
          | inl there ↦ k.amounts m ∙ rw there refl
          | inr unlisted ↦ k.amounts m ∙ rw unlisted (sym (unlisted_amount rv l m unlisted))
        ],
      )
