-- ===== src/Ledger/Supply.antt =====
-- The tokens that a set of addresses holds, under the steps of the specification.
use token_plugin.Prelude.{
  ℕ, ◌+◌, ◌≡◌, refl, ap, sym, Bool, true, false, some, List, [], ◌∷◌, ◌++◌, arith, ◌==◌,
  if◌then◌else◌, get_or, Bool-cases, Option-cases, inl, inr,
}
use token_plugin.Text.{Text, text_eq, text_eq→eq}
use token_plugin.Errors.{ok}
use token_plugin.Amounts.Pairs.{Utxos, erase, amount_of}
use token_plugin.Ledger.{Ledger, utxos, update, spend}

-- What the outputs of one address hold together.
abbrev pub balance : Utxos → ℕ
balance [] = 0
balance ((n, a) ∷ r) = a + balance r

-- What the addresses hold together.
abbrev pub supply : List Text → Ledger → ℕ
supply [] v = 0
supply (a ∷ addrs) v = balance (utxos v a) + supply addrs v

abbrev pub is_in : Text → List Text → Bool
is_in k [] = false
is_in k (a ∷ addrs) = if text_eq k a then true else is_in k addrs

-- No address is listed twice.
abbrev pub AreUnique : List Text → Type 0
AreUnique [] = Unit
AreUnique (a ∷ addrs) = (is_in a addrs ≡ false) × AreUnique addrs

balance-append : (ps : Utxos) (n a : ℕ) → balance (ps ++ (n, a) ∷ []) ≡ balance ps + a
balance-append [] n a = omega arith
balance-append ((m, x) ∷ r) n a = omega (arith, balance-append r n a)

pub balance-erase :
    (n : ℕ) (ps qs : Utxos) (x : ℕ)
    → amount_of n ps ≡ some x
    → erase n ps ≡ some qs
    → balance qs + x ≡ balance ps
balance-erase n [] qs x h e = cc
balance-erase n ((m, a) ∷ r) qs x h e = elim (Bool-cases (m == n)) [
  | inl same ↦ ground arith
  | inr differs ↦ elim (Option-cases (erase n r)) [
    | inl missing ↦ ground arith
    | inr (r', found) ↦ ground (arith, balance-erase n r r' x)
  ]
]

-- A pair can be removed exactly if it has an amount.
pub erase-some :
    (n : ℕ) (ps : Utxos) (x : ℕ) → amount_of n ps ≡ some x → (qs : Utxos) × (erase n ps ≡ some qs)
erase-some n [] x h = cc
erase-some n ((m, a) ∷ r) x h = elim (Bool-cases (m == n)) [
  | inl same ↦ (r, rw same refl)
  | inr differs ↦
      let rest = erase-some n r x (rw differs at h) in ((m, a) ∷ rest.0, rw (differs, rest.1) refl)
]

supply-update_out :
    (addrs : List Text) (v : Ledger) (k : Text) (ps : Utxos)
    → is_in k addrs ≡ false
    → supply addrs (update v k ps) ≡ supply addrs v
supply-update_out [] v k ps h = refl
supply-update_out (a ∷ addrs) v k ps h = elim (Bool-cases (text_eq k a)) [
  | inl same ↦ cc (rw same at h)
  | inr differs ↦
      rw differs
        (ap (λ n. balance (utxos v a) + n) (supply-update_out addrs v k ps (rw differs at h)))
]

-- Rewriting one listed address moves the supply by the change of its balance.
pub supply-update :
    (addrs : List Text) (v : Ledger) (k : Text) (ps : Utxos)
    → AreUnique addrs
    → is_in k addrs ≡ true
    → supply addrs (update v k ps) + balance (utxos v k) ≡ supply addrs v + balance ps
supply-update [] v k ps s h = cc
supply-update (a ∷ addrs) v k ps s h = elim (Bool-cases (text_eq k a)) [
  | inl same ↦
      let e = text_eq→eq k a same in
      rw same (
        omega (
          arith,
          supply-update_out addrs v k ps (rw (sym e) at s.0),
          ap (λ t. balance (utxos v t)) e,
        ))
  | inr differs ↦ rw differs (omega (arith, supply-update addrs v k ps s.1 (rw differs at h)))
]

-- Receiving an output raises the supply by its amount.
pub supply-receive :
    (addrs : List Text) (v : Ledger) (k : Text) (n x : ℕ)
    → AreUnique addrs
    → is_in k addrs ≡ true
    → supply addrs (update v k (utxos v k ++ (n, x) ∷ [])) ≡ supply addrs v + x
supply-receive addrs v k n x s h =
    omega (
      arith,
      supply-update addrs v k (utxos v k ++ (n, x) ∷ []) s h,
      balance-append (utxos v k) n x,
    )

-- Spending an output lowers the supply by what it holds.
pub supply-spend :
    (addrs : List Text) (v : Ledger) (k : Text) (n x : ℕ)
    → AreUnique addrs
    → is_in k addrs ≡ true
    → amount_of n (utxos v k) ≡ some x
    → (qs : Utxos) × (erase n (utxos v k) ≡ some qs)
      × (spend v k n ≡ ok (update v k qs))
      × (supply addrs (update v k qs) + x ≡ supply addrs v)
supply-spend addrs v k n x s h e = elim (Option-cases (v k)) [
  | inl missing ↦ cc (rw missing at e)
  | inr (ps, known) ↦
      let held : amount_of n ps ≡ some x = rw known at e in
      let (qs, left) = erase-some n ps x held in
      (
        qs,
        rw known left,
        rw (known, spend) (rw left refl),
        omega (
          arith,
          supply-update addrs v k qs s h,
          balance-erase n ps qs x held left,
          ap (λ o. balance (get_or [] o)) known,
        ),
      )
]
