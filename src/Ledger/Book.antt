-- ===== src/Ledger/Book.antt =====
-- A history of the specification's ledger: the payments under rising numbers, what was minted and
-- what was taken as fees.
use token_plugin.Prelude.{
  ℕ, ◌+◌, ◌≤◌, ◌<◌, ◌≡◌, ap, sym, ◌∙◌, true, some, List, [], ◌∷◌, arith, ltb, Bool-cases, inl, inr,
  All,
}
use mathlib.Core.Path.{subst}
use token_plugin.Text.{Text}
use token_plugin.Text.Split.{NoDelimiter}
use token_plugin.Errors.{ok}
use token_plugin.Errors.Exec.{for_each}
use token_plugin.Amounts.Pairs.{amount_of}
use token_plugin.Cache.{Input}
use token_plugin.Token.{Payment, sum_outputs}
use token_plugin.Ledger.{Ledger, utxos, owed, names, AreDistinct}
use token_plugin.Ledger.Fresh.{AreFresh, ArePaidOnce}
use token_plugin.Ledger.Gone.{
  IsGone, AreOnce, owed-held, outputs-IsGone, transfer-IsGone, transfer-spent,
}
use token_plugin.Ledger.Supply.{supply, AreUnique}
use token_plugin.Ledger.Transaction.{receive_step, transfer}
use token_plugin.Ledger.Transfer.{CoversInputs, CoversOutputs, transfer_total, receive_each_total}

-- The ledger, the last number that was given, and the sums of the mints and of the fees.
pub record Book : Type 0 where
  pub ledger : Ledger
  pub last : ℕ
  pub minted : ℕ
  pub fees : ℕ

-- Payments to different addresses of the list, none of which has ':' in it.
abbrev pub ArePayable : List Text → List Payment → Type 0
ArePayable addrs outputs =
    CoversOutputs addrs outputs × ArePaidOnce outputs × All (λ o. NoDelimiter o.address) outputs

-- The turns of a history among the addresses: a transfer, which may pay fees, and a mint.
pub data Turn (addrs : List Text) (b : Book) (b' : Book) : Type 0 where
  transferred :
      (inputs : List Input) (outputs : List Payment) (n fee : ℕ)
      → b.last < n
      → CoversInputs addrs inputs
      → AreDistinct inputs
      → ArePayable addrs outputs
      → owed b.ledger inputs ≡ some (sum_outputs outputs + fee)
      → transfer inputs outputs n b.ledger ≡ (ok tt, b'.ledger)
      → b'.last ≡ n
      → b'.minted ≡ b.minted
      → b'.fees ≡ b.fees + fee
      → Turn addrs b b'
  paid_out :
      (outputs : List Payment) (n : ℕ)
      → b.last < n
      → ArePayable addrs outputs
      → for_each outputs (receive_step n) b.ledger ≡ (ok tt, b'.ledger)
      → b'.last ≡ n
      → b'.minted ≡ b.minted + sum_outputs outputs
      → b'.fees ≡ b.fees
      → Turn addrs b b'

-- The inputs that a turn spends.
abbrev pub inputs_of : {addrs : List Text} {b b' : Book} → Turn addrs b b' → List Input
inputs_of (transferred inputs outputs n fee new ci d po owe run last minted fees) = inputs
inputs_of (paid_out outputs n new po run last minted fees) = []

-- No output has a number that was not given yet, and the addresses hold what was minted less the
-- fees.
pub record IsKept (addrs : List Text) (b : Book) : Type 0 where
  pub bounded : (a : Text) (n : ℕ) → b.last < n → IsGone a n b.ledger
  pub balanced : supply addrs b.ledger + b.fees ≡ b.minted

-- Outputs under a new number are fresh.
pub payable-AreFresh :
    (b : Book) (n : ℕ) (outputs : List Payment)
    → ((a : Text) (n : ℕ) → b.last < n → IsGone a n b.ledger)
    → b.last < n
    → All (λ o. NoDelimiter o.address) outputs
    → AreFresh n b.ledger outputs
payable-AreFresh b n outputs bounded h = go outputs
  where
    go : (os : List Payment) → All (λ o. NoDelimiter o.address) os → AreFresh n b.ledger os
    go [] c = tt
    go (o ∷ os) c = ((c.0, bounded o.address n h), go os c.1)

module _ (addrs : List Text) (unique : AreUnique addrs) where
  pub Turn-IsKept : (b b' : Book) → Turn addrs b b' → IsKept addrs b → IsKept addrs b'
  Turn-IsKept b b' (transferred inputs outputs n fee new ci d po owe run last minted fees) k =
      let (u, run', moved) =
        transfer_total addrs unique b.ledger inputs outputs n (sum_outputs outputs + fee) ci po.0 d
          owe in
      let same : u ≡ b'.ledger = ap (λ p. p.1) (sym run' ∙ run) in
      let sums =
        subst
          (λ x.
            supply addrs x + (sum_outputs outputs + fee)
            ≡ supply addrs b.ledger + sum_outputs outputs)
          same moved in
      record {
        bounded = λ a m h.
            transfer-IsGone a m n inputs outputs b.ledger b'.ledger (ground arith)
              (k.bounded a m (omega arith)) run;
        balanced = omega (arith, k.balanced);
      }
  Turn-IsKept b b' (paid_out outputs n new po run last minted fees) k =
      let (u, run', moved) = receive_each_total addrs unique b.ledger outputs n po.0 in
      let same : u ≡ b'.ledger = ap (λ p. p.1) (sym run' ∙ run) in
      let sums =
        subst (λ x. supply addrs x ≡ supply addrs b.ledger + sum_outputs outputs) same moved in
      record {
        bounded = λ a m h.
            outputs-IsGone a m n outputs b.ledger b'.ledger (ground arith)
              (k.bounded a m (omega arith)) run;
        balanced = omega (arith, k.balanced);
      }

-- What is gone under a number that was given stays gone.
pub Turn-IsGone :
    (addrs : List Text) (b b' : Book) (a : Text) (m : ℕ)
    → Turn addrs b b'
    → m ≤ b.last
    → IsGone a m b.ledger
    → IsGone a m b'.ledger
Turn-IsGone addrs b b' a m (transferred inputs outputs n fee new ci d po owe run last minted fees) h
      g =
    transfer-IsGone a m n inputs outputs b.ledger b'.ledger (ground arith) g run
Turn-IsGone addrs b b' a m (paid_out outputs n new po run last minted fees) h g =
    outputs-IsGone a m n outputs b.ledger b'.ledger (ground arith) g run

pub Turn-last : (addrs : List Text) (b b' : Book) → Turn addrs b b' → b.last < b'.last
Turn-last addrs b b' (transferred inputs outputs n fee new ci d po owe run last minted fees) =
    omega arith
Turn-last addrs b b' (paid_out outputs n new po run last minted fees) = omega arith

number_given :
    (addrs : List Text) (b : Book) (a : Text) (n x : ℕ)
    → IsKept addrs b
    → amount_of n (utxos b.ledger a) ≡ some x
    → n ≤ b.last
number_given addrs b a n x k held = elim (Bool-cases (ltb b.last n)) [
  | inl new ↦ cc (held, k.bounded a n (ground arith))
  | inr old ↦ ground arith
]

-- An input that a turn spends has a number that was given, and is gone.
pub Turn-spent :
    (addrs : List Text) (b b' : Book) (i : Input) (t : Turn addrs b b')
    → names i (inputs_of t) ≡ true
    → AreOnce b.ledger
    → IsKept addrs b
    → (i.seq_no ≤ b'.last) × IsGone i.address i.seq_no b'.ledger
Turn-spent addrs b b' i (transferred inputs outputs n fee new ci d po owe run last minted fees) h
      once k =
    let (x, held) = owed-held b.ledger i inputs _ owe h in
    let given = number_given addrs b i.address i.seq_no x k held in
    (omega arith, transfer-spent i n inputs outputs b.ledger b'.ledger (ground arith) h once run)
Turn-spent addrs b b' i (paid_out outputs n new po run last minted fees) h once k = cc
