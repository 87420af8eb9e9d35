-- ===== src/Ledger/Gone.antt =====
-- An address that has no output of a number has none later, until the number is used again.
use mathlib.Core.Path.{subst}
use token_plugin.Prelude.{
  ℕ, ◌≡◌, ap, sym, ◌∙◌, true, false, none, some, List, [], ◌∷◌, ◌++◌, arith, ◌==◌, Bool-cases, inl,
  inr, ==_iff,
}
use token_plugin.Text.{Text, text_eq, text_eq_iff, text_eq→eq}
use token_plugin.Errors.{Result, ok}
use token_plugin.Errors.Exec.{Exec, for_each, seq-eq-ok}
use token_plugin.Amounts.Pairs.{amount_of, plus_option-some}
use token_plugin.Cache.{Input}
use token_plugin.Token.{Payment}
use token_plugin.Ledger.{Ledger, utxos, update, names, owed, input_eq}
use token_plugin.Ledger.Fresh.{spend-eq-ok, step-eq-ok}
use token_plugin.Ledger.Once.{
  IsOnce, amount_of-append, amount_of-erase-none, amount_of-erase_self, erase-IsOnce,
}
use token_plugin.Ledger.Transaction.{spend_step, receive_step, transfer}

-- What every round of a loop keeps, a loop that returns keeps.
pub for_each-keeps {ℓ} :
    {A S : Type 0} (P : S → Type ℓ) (body : A → Exec S (Unit {0}))
    → ((x : A) (s t : S) → P s → body x s ≡ (ok tt, t) → P t)
    → (xs : List A) (s t : S) → P s
    → for_each xs body s ≡ (ok tt, t)
    → P t
unfolding for_each
for_each-keeps P body keep [] s t p e = subst P (ap (λ q. q.1) e) p
for_each-keeps P body keep (x ∷ xs) s t p e =
    let (u, first, rest) = seq-eq-ok (body x) (for_each xs body) s t e in
    for_each-keeps P body keep xs u t (keep x s u p first) rest

pub receive-eq :
    (v u : Ledger) (o : Payment) (n : ℕ)
    → receive_step n o v ≡ (ok tt, u)
    → update v o.address (utxos v o.address ++ (n, o.amount) ∷ []) ≡ u
receive-eq v u o n e = go (step-eq-ok _ v u e)
  where
    go : {w : Ledger} → Result.ok w ≡ ok u → w ≡ u
    go e = cc e

-- The address has no unspent output with the number.
abbrev pub IsGone : Text → ℕ → Ledger → Type 0
IsGone a n v = amount_of n (utxos v a) ≡ none

spent-IsGone :
    (a : Text) (n : ℕ) (i : Input) (v u : Ledger)
    → IsGone a n v
    → spend_step i v ≡ (ok tt, u)
    → IsGone a n u
spent-IsGone a n i v u g e =
    let (qs, left, moved) = spend-eq-ok v u i.address i.seq_no (step-eq-ok _ v u e) in
    subst (IsGone a n) moved (elim (Bool-cases (text_eq i.address a)) [
      | inl same ↦ rw same (
          amount_of-erase-none i.seq_no n (utxos v i.address) qs
            (ap (λ b. amount_of n (utxos v b)) (text_eq→eq i.address a same) ∙ g) left)
      | inr differs ↦ rw differs g
    ])

received-IsGone :
    (a : Text) (n m : ℕ) (o : Payment) (v u : Ledger)
    → (m == n) ≡ false
    → IsGone a n v
    → receive_step m o v ≡ (ok tt, u)
    → IsGone a n u
received-IsGone a n m o v u h g e =
    subst (IsGone a n) (receive-eq v u o m e) (elim (Bool-cases (text_eq o.address a)) [
      | inl same ↦ rw same (
          let gone : amount_of n (utxos v o.address) ≡ none =
            ap (λ b. amount_of n (utxos v b)) (text_eq→eq o.address a same) ∙ g in
          ground (arith, amount_of-append m o.amount n (utxos v o.address)))
      | inr differs ↦ rw differs g
    ])

pub outputs-IsGone :
    (a : Text) (n m : ℕ) (outputs : List Payment) (v u : Ledger)
    → (m == n) ≡ false
    → IsGone a n v
    → for_each outputs (receive_step m) v ≡ (ok tt, u)
    → IsGone a n u
outputs-IsGone a n m outputs v u h =
    for_each-keeps (IsGone a n) (receive_step m) (λ o s t. received-IsGone a n m o s t h) outputs v
      u

-- A transfer under another number.
pub transfer-IsGone :
    (a : Text) (n m : ℕ) (inputs : List Input) (outputs : List Payment) (v u : Ledger)
    → (m == n) ≡ false
    → IsGone a n v
    → transfer inputs outputs m v ≡ (ok tt, u)
    → IsGone a n u
unfolding transfer
transfer-IsGone a n m inputs outputs v u h g e =
    let (t, spent, received) =
      seq-eq-ok (for_each inputs spend_step) (for_each outputs (receive_step m)) v u e in
    outputs-IsGone a n m outputs t u h
      (for_each-keeps (IsGone a n) spend_step (spent-IsGone a n) inputs v t g spent) received

-- No address has two unspent outputs with one number.
abbrev pub AreOnce : Ledger → Type 0
AreOnce v = (a : Text) → IsOnce (utxos v a)

spent-AreOnce : (i : Input) (v u : Ledger) → AreOnce v → spend_step i v ≡ (ok tt, u) → AreOnce u
spent-AreOnce i v u once e =
    let (qs, left, moved) = spend-eq-ok v u i.address i.seq_no (step-eq-ok _ v u e) in
    subst AreOnce moved λ a. elim (Bool-cases (text_eq i.address a)) [
      | inl same ↦ rw same (erase-IsOnce i.seq_no (utxos v i.address) qs (once i.address) left)
      | inr differs ↦ rw differs (once a)
    ]

same_output :
    (i j : Input)
    → input_eq i j ≡ true
    → (text_eq j.address i.address ≡ true) × (j.seq_no ≡ i.seq_no)
same_output i j h = elim (Bool-cases (text_eq i.address j.address)) [
  | inl same ↦ (
    (text_eq_iff j.address i.address).1 (sym (text_eq→eq i.address j.address same)),
    sym ((==_iff i.seq_no j.seq_no).0 (rw same at h)),
  )
  | inr differs ↦ cc (rw differs at h)
]

-- What an input names is gone once it is spent.
self-IsGone :
    (i j : Input) (v u : Ledger)
    → input_eq i j ≡ true
    → AreOnce v
    → spend_step j v ≡ (ok tt, u)
    → IsGone i.address i.seq_no u
self-IsGone i j v u same once e =
    let (qs, left, moved) = spend-eq-ok v u j.address j.seq_no (step-eq-ok _ v u e) in
    let gone = amount_of-erase_self j.seq_no (utxos v j.address) qs (once j.address) left in
    let (address, number) = same_output i j same in
    subst (IsGone i.address i.seq_no) moved
      (rw address (subst (λ n. amount_of n qs ≡ none) number gone))

pub inputs-IsGone :
    (i : Input) (inputs : List Input) (v u : Ledger)
    → names i inputs ≡ true
    → AreOnce v
    → for_each inputs spend_step v ≡ (ok tt, u)
    → IsGone i.address i.seq_no u
unfolding for_each
inputs-IsGone i [] v u h once e = cc
inputs-IsGone i (j ∷ js) v u h once e =
    let (t, first, rest) = seq-eq-ok (spend_step j) (for_each js spend_step) v u e in
    elim (Bool-cases (input_eq i j)) [
      | inl same ↦
          for_each-keeps (IsGone i.address i.seq_no) spend_step (spent-IsGone i.address i.seq_no) js
            t u (self-IsGone i j v t same once first) rest
      | inr differs ↦ inputs-IsGone i js t u (rw differs at h) (spent-AreOnce j v t once first) rest
    ]

-- After a transfer under another number, too.
pub transfer-spent :
    (i : Input) (m : ℕ) (inputs : List Input) (outputs : List Payment) (v u : Ledger)
    → (m == i.seq_no) ≡ false
    → names i inputs ≡ true
    → AreOnce v
    → transfer inputs outputs m v ≡ (ok tt, u)
    → IsGone i.address i.seq_no u
unfolding transfer
transfer-spent i m inputs outputs v u h named once e =
    let (t, spent, received) =
      seq-eq-ok (for_each inputs spend_step) (for_each outputs (receive_step m)) v u e in
    outputs-IsGone i.address i.seq_no m outputs t u h (inputs-IsGone i inputs v t named once spent)
      received

-- What is owed for is unspent.
pub owed-held :
    (v : Ledger) (i : Input) (inputs : List Input) (t : ℕ)
    → owed v inputs ≡ some t
    → names i inputs ≡ true
    → (x : ℕ) × (amount_of i.seq_no (utxos v i.address) ≡ some x)
owed-held v i [] t e h = cc
owed-held v i (j ∷ js) t e h =
    let (x, y, held, rest, sum) =
      plus_option-some (amount_of j.seq_no (utxos v j.address)) (owed v js) t e in
    elim (Bool-cases (input_eq i j)) [
      | inl same ↦
          let (address, number) = same_output i j same in
          (
            x,
            subst (λ n. amount_of n (utxos v i.address) ≡ some x) number
                (subst (λ a. amount_of j.seq_no (utxos v a) ≡ some x)
                  (text_eq→eq j.address i.address address) held),
          )
      | inr differs ↦ owed-held v i js y rest (rw differs at h)
    ]
