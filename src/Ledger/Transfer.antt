-- ===== src/Ledger/Transfer.antt =====
-- A transfer on the specification: it succeeds when its inputs are unspent, and moves the supply by
-- what it pays out less what it spends.
use token_plugin.Prelude.{
  ℕ, ◌+◌, ◌≡◌, refl, ap, ap₂, sym, ◌∙◌, true, false, some, List, [], ◌∷◌, ◌++◌, arith, Bool-cases,
  inl, inr, All,
}
use token_plugin.Text.{Text, text_eq, text_eq→eq}
use token_plugin.Errors.{Result, ok}
use token_plugin.Errors.Exec.{for_each, seq-ok}
use token_plugin.Amounts.Pairs.{Utxos, erase, amount_of, plus_option, plus_option-some}
use token_plugin.Cache.{Input}
use token_plugin.Token.{Payment, sum_outputs}
use token_plugin.Ledger.{Ledger, utxos, update, receive, spend, owed, names, input_eq, AreDistinct}
use token_plugin.Ledger.Once.{amount_of-erase_ne}
use token_plugin.Ledger.Supply.{supply, is_in, AreUnique, supply-spend, supply-receive}
use token_plugin.Ledger.Transaction.{step, spend_step, receive_step, transfer}

-- Spending one output leaves the others as they are.
owed-spent :
    (v : Ledger) (i : Input) (is : List Input) (qs : Utxos)
    → names i is ≡ false
    → erase i.seq_no (utxos v i.address) ≡ some qs
    → owed (update v i.address qs) is ≡ owed v is
owed-spent v i [] qs h e = refl
owed-spent v i (j ∷ is) qs h e = elim (Bool-cases (input_eq i j)) [
  | inl same ↦ cc (rw same at h)
  | inr differs ↦ elim (Bool-cases (text_eq i.address j.address)) [
    | inl here ↦ rw here (
        ap₂ plus_option
          (amount_of-erase_ne i.seq_no j.seq_no (utxos v j.address) qs (rw here at differs)
            (sym (ap (λ a. erase i.seq_no (utxos v a)) (text_eq→eq i.address j.address here)) ∙ e))
          (owed-spent v i is qs (rw differs at h) e))
    | inr there ↦ rw there (
        ap (plus_option (amount_of j.seq_no (utxos v j.address)))
          (owed-spent v i is qs (rw differs at h) e))
  ]
]

-- The addresses of the list are all covered.
abbrev pub CoversInputs : List Text → List Input → Type 0
CoversInputs addrs = All (λ i. is_in i.address addrs ≡ true)

abbrev pub CoversOutputs : List Text → List Payment → Type 0
CoversOutputs addrs = All (λ o. is_in o.address addrs ≡ true)

step-ok : (f : Ledger → Result Ledger) (v v' : Ledger) → f v ≡ ok v' → step f v ≡ (ok tt, v')
unfolding step
step-ok f v v' h = rw (h, step) refl

module _ (addrs : List Text) (unique : AreUnique addrs) where
  -- Unspent inputs that are named once are all spent, and the supply falls by what they held.
  pub spend_each_total :
      (v : Ledger) (inputs : List Input) (t : ℕ)
      → CoversInputs addrs inputs
      → AreDistinct inputs
      → owed v inputs ≡ some t
      → (v' : Ledger) × (for_each inputs spend_step v ≡ (ok tt, v'))
        × (supply addrs v' + t ≡ supply addrs v)
  unfolding for_each
  spend_each_total v [] t c d h = (v, refl, ground arith)
  spend_each_total v (i ∷ is) t c d h =
      let (x, y, held, rest, sum) =
        plus_option-some (amount_of i.seq_no (utxos v i.address)) (owed v is) t h in
      let (qs, left, spent, lower) = supply-spend addrs v i.address i.seq_no x unique c.0 held in
      let (v', all, lowest) =
        spend_each_total (update v i.address qs) is y c.1 d.1
          (owed-spent v i is qs d.0 left ∙ rest) in
      (
        v',
        seq-ok (spend_step i) (for_each is spend_step) v (update v i.address qs) (ok tt, v')
            (step-ok (λ u. spend u i.address i.seq_no) v (update v i.address qs) spent) all,
        omega arith,
      )

  -- Outputs are always received, and the supply rises by their sum.
  pub receive_each_total :
      (v : Ledger) (outputs : List Payment) (seq_no : ℕ)
      → CoversOutputs addrs outputs
      → (v' : Ledger) × (for_each outputs (receive_step seq_no) v ≡ (ok tt, v'))
        × (supply addrs v' ≡ supply addrs v + sum_outputs outputs)
  unfolding for_each sum_outputs
  receive_each_total v [] seq_no c = (v, refl, omega arith)
  receive_each_total v (o ∷ os) seq_no c =
      let u = update v o.address (utxos v o.address ++ (seq_no, o.amount) ∷ []) in
      let (v', all, higher) = receive_each_total u os seq_no c.1 in
      (
        v',
        seq-ok (receive_step seq_no o) (for_each os (receive_step seq_no)) v u (ok tt, v')
            (step-ok (λ w. receive w o.address seq_no (some o.amount)) v u refl) all,
        omega (arith, supply-receive addrs v o.address seq_no o.amount unique c.0),
      )

  pub transfer_total :
      (v : Ledger) (inputs : List Input) (outputs : List Payment) (seq_no t : ℕ)
      → CoversInputs addrs inputs
      → CoversOutputs addrs outputs
      → AreDistinct inputs
      → owed v inputs ≡ some t
      → (v' : Ledger) × (transfer inputs outputs seq_no v ≡ (ok tt, v'))
        × (supply addrs v' + t ≡ supply addrs v + sum_outputs outputs)
  unfolding transfer
  transfer_total v inputs outputs seq_no t ci co d h =
      let (u, spent, lower) = spend_each_total v inputs t ci d h in
      let (v', received, higher) = receive_each_total u outputs seq_no co in
      (
        v',
        seq-ok (for_each inputs spend_step) (for_each outputs (receive_step seq_no)) v u (ok tt, v')
            spent received,
        omega arith,
      )
