-- ===== src/GetUtxo/Listing.antt =====
-- The entries of the state that GET_UTXO is given for an address, and outputs with numbers of their
-- own.
use token_plugin.Prelude.{
  ℕ, ◌≡◌, ◌≢◌, refl, sym, Bool, true, false, Option, none, some, List, [], ◌∷◌, arith, ◌==◌, ltb,
  if◌then◌else◌, Bool-cases, inl, inr, All,
}
use token_plugin.Text.{Text}
use token_plugin.Storage.{TrieState}
use token_plugin.Amounts.{Output}
use token_plugin.Token.{create_state_key}
use token_plugin.GetUtxo.{add_sorted}
use token_plugin.GetUtxo.Sorted.{All-add_sorted}
use token_plugin.GetUtxo.Drains.{IsApart, AreApart}

-- The entries of the address with the numbers, as the state gives them.
abbrev pub entries_of : Text → List (ℕ × Text) → List (Text × Text)
entries_of a [] = []
entries_of a ((n, v) ∷ ns) = (create_state_key a n, v) ∷ entries_of a ns

abbrev pub listed : ℕ → List (ℕ × Text) → Bool
listed m [] = false
listed m ((n, v) ∷ ns) = if n == m then true else listed m ns

abbrev pub AreOnce : List (ℕ × Text) → Type 0
AreOnce [] = Unit
AreOnce ((n, v) ∷ ns) = (listed n ns ≡ false) × AreOnce ns

-- The amount of the first output with the number.
abbrev pub amount_in : ℕ → List Output → Option ℕ
amount_in m [] = none
amount_in m (o ∷ r) = if o.seq_no == m then o.amount else amount_in m r

-- The state's entries whose keys begin with the address: all its own, each once and with the value
-- that is stored, and no other.
pub record IsListing (ts : TrieState) (rlp : Text → Text) (s : ts.State) (a : Text)
    (rv : List (Text × Text)) : Type 0 where
  pub numbered : List (ℕ × Text)
  pub same : rv ≡ entries_of a numbered
  pub stored : All (λ e. ts.get s (create_state_key a e.0) ≡ some (rlp e.1)) numbered
  pub all : (n : ℕ) (t : Text) → ts.get s (create_state_key a n) ≡ some t → listed n numbered ≡ true
  pub once : AreOnce numbered

pub amount_in-add_sorted :
    (m : ℕ) (o : Output) (r : List Output)
    → amount_in m (add_sorted o r) ≡ (if o.seq_no == m then o.amount else amount_in m r)
unfolding add_sorted
amount_in-add_sorted m o [] = refl
amount_in-add_sorted m o (p ∷ r) = ground (arith, amount_in-add_sorted m o r)

pub add_sorted-AreApart :
    (o : Output) (r : List Output) → IsApart o r → AreApart r → AreApart (add_sorted o r)
unfolding add_sorted
add_sorted-AreApart o [] h g = (tt, tt)
add_sorted-AreApart o (p ∷ r) h g = elim (Bool-cases (ltb p.seq_no o.seq_no)) [
  | inl before ↦ rw before (
    All-add_sorted (λ q. p.seq_no ≢ q.seq_no) o r (λ e. h.0 (sym e)) g.0,
    add_sorted-AreApart o r h.1 g.1,
  )
  | inr here ↦ rw here (h, g)
]

-- None of the outputs has a number that is still to come.
abbrev pub AreBefore : List (ℕ × Text) → List Output → Type 0
AreBefore ns = All (λ o. listed o.seq_no ns ≡ false)

pub AreBefore-tail :
    (n : ℕ) (t : Text) (ns : List (ℕ × Text)) (acc : List Output)
    → AreBefore ((n, t) ∷ ns) acc
    → AreBefore ns acc
AreBefore-tail n t ns [] h = tt
AreBefore-tail n t ns (o ∷ acc) h = (ground arith, AreBefore-tail n t ns acc h.1)

pub AreBefore-IsApart :
    (n : ℕ) (t : Text) (ns : List (ℕ × Text)) (acc : List Output) (o : Output)
    → o.seq_no ≡ n
    → AreBefore ((n, t) ∷ ns) acc
    → IsApart o acc × (amount_in n acc ≡ none)
AreBefore-IsApart n t ns [] o e h = (tt, refl)
AreBefore-IsApart n t ns (p ∷ acc) o e h =
    let (rest, missing) = AreBefore-IsApart n t ns acc o e h.1 in
    elim (Bool-cases (n == p.seq_no)) [
      | inl same ↦ cc (rw same at h.0)
      | inr differs ↦
          let other : (p.seq_no == n) ≡ false = ground arith in
          (((λ same. ground (arith, differs, e, same)), rest), rw other missing)
    ]
