-- ===== src/Ledger/Fresh.antt =====
-- New outputs on the specification: what makes their keys fresh, and that spending keeps them so.
use mathlib.Core.Path.{subst}
use token_plugin.Prelude.{
  ℕ, ◌≡◌, ap, sym, ◌∙◌, Bool, true, false, none, some, List, [], ◌∷◌, if◌then◌else◌, Bool-cases,
  Option-cases, inl, inr, All,
}
use token_plugin.Text.{Text, text_eq, text_eq→eq}
use token_plugin.Text.Split.{NoDelimiter}
use token_plugin.Errors.{Result, ok, err}
use token_plugin.Errors.Exec.{for_each, seq-eq-ok}
use token_plugin.Amounts.Pairs.{Utxos, erase, amount_of}
use token_plugin.Cache.{Input}
use token_plugin.Token.{Payment}
use token_plugin.Ledger.{Ledger, utxos, update, spend, spend_from}
use token_plugin.Ledger.Once.{amount_of-erase-none}
use token_plugin.Ledger.Transaction.{step, spend_step}

pub spend-eq-ok :
    (v v' : Ledger) (k : Text) (n : ℕ)
    → spend v k n ≡ ok v'
    → (qs : Utxos) × (erase n (utxos v k) ≡ some qs) × (update v k qs ≡ v')
spend-eq-ok v v' k n h = elim (Option-cases (v k)) [
  | inl missing ↦ cc (rw (missing, spend) at h)
  | inr (ps, known) ↦
      let h' : spend_from v k (erase n ps) ≡ ok v' = rw (known, spend) at h in
      elim (Option-cases (erase n ps)) [
        | inl gone ↦ cc (rw gone at h')
        | inr (qs, left) ↦ (qs, rw known left, ok_inj (rw left at h'))
      ]
]
  where
    ok_inj : {u w : Ledger} → Result.ok u ≡ ok w → u ≡ w
    ok_inj e = cc e

pub step-eq-ok : (f : Ledger → Result Ledger) (v v' : Ledger) → step f v ≡ (ok tt, v') → f v ≡ ok v'
unfolding step
step-eq-ok f v v' h = go (f v) h
  where
    go : (r : Result Ledger) → step (λ u. r) v ≡ (ok tt, v') → r ≡ ok v'
    go (ok u) e = ap (λ p. Result.ok (p.1)) e
    go (err x) e = cc e

-- Is the address paid by one of the outputs?
abbrev pub pays : Text → List Payment → Bool
pays a [] = false
pays a (o ∷ os) = if text_eq a o.address then true else pays a os

-- No address is paid twice, as `PublicOutputsField` demands.
abbrev pub ArePaidOnce : List Payment → Type 0
ArePaidOnce [] = Unit
ArePaidOnce (o ∷ os) = (pays o.address os ≡ false) × ArePaidOnce os

-- None of the outputs' addresses has ':' in it, nor an unspent output with the number.
abbrev pub AreFresh : ℕ → Ledger → List Payment → Type 0
AreFresh n v = All (λ o. NoDelimiter o.address × (amount_of n (utxos v o.address) ≡ none))

pub AreFresh-received :
    (n : ℕ) (v : Ledger) (a : Text) (ps : Utxos) (os : List Payment)
    → AreFresh n v os
    → pays a os ≡ false
    → AreFresh n (update v a ps) os
AreFresh-received n v a ps [] f h = tt
AreFresh-received n v a ps (o ∷ os) f h = elim (Bool-cases (text_eq a o.address)) [
  | inl same ↦ cc (rw same at h)
  | inr differs ↦ rw differs (f.0, AreFresh-received n v a ps os f.1 (rw differs at h))
]

AreFresh-erased :
    (n : ℕ) (v : Ledger) (k : Text) (m : ℕ) (qs : Utxos) (os : List Payment)
    → AreFresh n v os
    → erase m (utxos v k) ≡ some qs
    → AreFresh n (update v k qs) os
AreFresh-erased n v k m qs [] f h = tt
AreFresh-erased n v k m qs (o ∷ os) f h = elim (Bool-cases (text_eq k o.address)) [
  | inl same ↦ rw same (
    (
      f.0.0,
      amount_of-erase-none m n (utxos v o.address) qs f.0.1
          (sym (ap (λ a. erase m (utxos v a)) (text_eq→eq k o.address same)) ∙ h),
    ),
    AreFresh-erased n v k m qs os f.1 h,
  )
  | inr differs ↦ rw differs (f.0, AreFresh-erased n v k m qs os f.1 h)
]

pub AreFresh-spent :
    (n : ℕ) (v v' : Ledger) (inputs : List Input) (os : List Payment)
    → AreFresh n v os
    → for_each inputs spend_step v ≡ (ok tt, v')
    → AreFresh n v' os
unfolding for_each
AreFresh-spent n v v' [] os f e = subst (λ u. AreFresh n u os) (ap (λ p. p.1) e) f
AreFresh-spent n v v' (i ∷ is) os f e =
    let (u, first, rest) = seq-eq-ok (spend_step i) (for_each is spend_step) v v' e in
    let (qs, left, moved) = spend-eq-ok v u i.address i.seq_no (step-eq-ok _ v u first) in
    AreFresh-spent n u v' is os
      (subst (λ u. AreFresh n u os) moved (AreFresh-erased n v i.address i.seq_no qs os f left))
      rest
