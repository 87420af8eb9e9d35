-- ===== src/Ledger/Once.antt =====
-- No address has two unspent outputs with one sequence number.
use token_plugin.Prelude.{
  ℕ, ◌≡◌, refl, false, none, some, [], ◌∷◌, ◌++◌, arith, ◌==◌, ==_iff, if◌then◌else◌, Bool-cases,
  Option-cases, inl, inr,
}
use mathlib.Core.Path.{subst}
use token_plugin.Amounts.Pairs.{Utxos, erase, amount_of}

abbrev pub IsOnce : Utxos → Type 0
IsOnce [] = Unit
IsOnce ((n, a) ∷ r) = (amount_of n r ≡ none) × IsOnce r

pub amount_of-erase_ne :
    (n m : ℕ) (ps qs : Utxos)
    → (n == m) ≡ false
    → erase n ps ≡ some qs
    → amount_of m qs ≡ amount_of m ps
amount_of-erase_ne n m [] qs h e = cc
amount_of-erase_ne n m ((k, a) ∷ r) qs h e = elim (Bool-cases (k == n)) [
  | inl same ↦ ground arith
  | inr differs ↦ elim (Option-cases (erase n r)) [
    | inl missing ↦ ground arith
    | inr (r', found) ↦ ground (arith, amount_of-erase_ne n m r r' h found)
  ]
]

pub amount_of-erase-none :
    (n m : ℕ) (ps qs : Utxos) → amount_of m ps ≡ none → erase n ps ≡ some qs → amount_of m qs ≡ none
amount_of-erase-none n m [] qs h e = cc
amount_of-erase-none n m ((k, a) ∷ r) qs h e = elim (Bool-cases (k == n)) [
  | inl same ↦ ground arith
  | inr differs ↦ elim (Option-cases (erase n r)) [
    | inl missing ↦ ground arith
    | inr (r', found) ↦ ground (arith, amount_of-erase-none n m r r')
  ]
]

pub amount_of-erase_self :
    (n : ℕ) (ps qs : Utxos) → IsOnce ps → erase n ps ≡ some qs → amount_of n qs ≡ none
amount_of-erase_self n [] qs h e = cc
amount_of-erase_self n ((k, a) ∷ r) qs h e = elim (Bool-cases (k == n)) [
  | inl same ↦ ground (arith, (==_iff k n).0 same)
  | inr differs ↦ elim (Option-cases (erase n r)) [
    | inl missing ↦ ground arith
    | inr (r', found) ↦ ground (arith, amount_of-erase_self n r r' h.1 found)
  ]
]

pub erase-IsOnce : (n : ℕ) (ps qs : Utxos) → IsOnce ps → erase n ps ≡ some qs → IsOnce qs
erase-IsOnce n [] qs h e = cc
erase-IsOnce n ((k, a) ∷ r) qs h e = elim (Bool-cases (k == n)) [
  | inl same ↦ let left : r ≡ qs = ground arith in subst IsOnce left h.1
  | inr differs ↦ elim (Option-cases (erase n r)) [
    | inl missing ↦ ground arith
    | inr (r', found) ↦
        let left : (k, a) ∷ r' ≡ qs = ground arith in
        subst IsOnce left (amount_of-erase-none n k r r' h.0 found, erase-IsOnce n r r' h.1 found)
  ]
]

pub amount_of-append :
    (n x m : ℕ) (ps : Utxos)
    → amount_of m (ps ++ (n, x) ∷ [])
      ≡ (elim (amount_of m ps) [ some y ↦ some y | none ↦ if n == m then some x else none ])
amount_of-append n x m [] = refl
amount_of-append n x m ((k, a) ∷ r) = ground (arith, amount_of-append n x m r)

pub append-IsOnce :
    (n x : ℕ) (ps : Utxos) → IsOnce ps → amount_of n ps ≡ none → IsOnce (ps ++ (n, x) ∷ [])
append-IsOnce n x [] h e = (refl, tt)
append-IsOnce n x ((k, a) ∷ r) h e =
    ground (arith, append-IsOnce n x r h.1, amount_of-append n x k r)
