-- ===== src/Ledger.antt =====
-- The abstract specification of the UTXO cache: for each address that was ever paid, its unspent
-- outputs in the order of their arrival. Errors are the code's.
pub mod Supply
pub mod Transaction
pub mod Transfer
pub mod Once
pub mod Fresh
pub mod Gone
pub mod Book
use token_plugin.Prelude.{
  ℕ, ◌+◌, Bool, true, false, Option, none, some, List, [], ◌∷◌, ◌++◌, ◌==◌, ◌&&◌, ◌≡◌, refl,
  if◌then◌else◌, get_or,
}
use token_plugin.Text.{Text, text_eq}
use token_plugin.Errors.{Exn, Result, ok, err, is_utxo_error}
use token_plugin.Amounts.{Output}
use token_plugin.Amounts.Pairs.{Utxos, erase, amount_of, plus_option}
use token_plugin.Cache.{Input}

abbrev pub Ledger : Type 0
Ledger = Text → Option Utxos

abbrev pub utxos : Ledger → Text → Utxos
utxos v a = get_or [] (v a)

abbrev pub update : Ledger → Text → Utxos → Ledger
update v k ps a = if text_eq k a then some ps else v a

-- A new output; one without an amount is refused.
abbrev pub receive : Ledger → Text → ℕ → Option ℕ → Result Ledger
receive v a n none = err Exn.utxo_error
receive v a n (some x) = ok (update v a (utxos v a ++ (n, x) ∷ []))

abbrev pub spend_from : Ledger → Text → Option Utxos → Result Ledger
spend_from v a none = err Exn.utxo_not_found
spend_from v a (some ps) = ok (update v a ps)

-- An output is spent at most once: a second attempt does not find it.
abbrev pub spend : Ledger → Text → ℕ → Result Ledger
spend v a n = elim (v a) [
  | none ↦ err Exn.utxo_address_not_found
  | some ps ↦ spend_from v a (erase n ps)
]

-- What the outputs that the inputs name hold together; `none` if one is not unspent.
abbrev pub owed : Ledger → List Input → Option ℕ
owed v [] = some 0
owed v (i ∷ is) = plus_option (amount_of i.seq_no (utxos v i.address)) (owed v is)

abbrev pub input_eq : Input → Input → Bool
input_eq i j = text_eq i.address j.address && i.seq_no == j.seq_no

abbrev pub names : Input → List Input → Bool
names i [] = false
names i (j ∷ is) = if input_eq i j then true else names i is

-- No output is named twice.
abbrev pub AreDistinct : List Input → Type 0
AreDistinct [] = Unit
AreDistinct (i ∷ is) = (names i is ≡ false) × AreDistinct is

-- A computed sum is that of the specification, and a failure is a `UTXOError`.
abbrev pub Sums : Result ℕ → Option ℕ → Type 0
Sums (ok t) o = o ≡ some t
Sums (err e) o = (o ≡ none) × (is_utxo_error e ≡ true)
