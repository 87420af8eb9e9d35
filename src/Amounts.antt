-- ===== src/Amounts.antt =====
-- `UTXOAmounts` of sovtoken/sovtoken/utxo_cache.py: the unspent outputs of one address, a list of
-- texts in which sequence numbers and amounts alternate. Numbers are the non-negative integers
-- that the field validation lets through; the type checks on arguments are Python's and fall away.
-- The cache's values are texts here, so the decoding of bytes falls away too.
pub mod Pairs
use token_plugin.Prelude.{
  ℕ, zero, suc, ◌+◌, ◌%◌, Bool, true, false, Option, none, some, List, [], ◌∷◌, ◌++◌, ◌==◌, ltb,
  if◌then◌else◌, length, is_empty, pop, contains, remove,
}
use token_plugin.Text.{Text, text_eq}
use token_plugin.Text.Decimal.{str, int}
use token_plugin.Text.Split.{join, split}
use token_plugin.Errors.{Exn, Result, ok, err, ◌>>=◌, ◌>>◌, raise_if, or_raise, map_err}

-- sovtoken/sovtoken/types.py; `amount` is None in an output that is to be spent.
pub record Output : Type 0 where
  pub address : Text
  pub seq_no : ℕ
  pub amount : Option ℕ

-- `Output.less_than`, which `<` is.
abbrev pub less_than : Output → Output → Bool
less_than self other = ltb self.seq_no other.seq_no

pub record UtxoAmounts : Type 0 where
  pub address : Text
  pub items : List Text

-- `UTXOAmounts.__init__`: no data, and empty data, is the empty list.
unfoldable pub init : Text → Option Text → Result UtxoAmounts
init address none = ok (record { address = address; items = [] })
init address (some []) = ok (record { address = address; items = [] })
init address (some (c ∷ s)) =
    let parts = split (c ∷ s) in
    if length parts % 2 == 0
    then ok (record { address = address; items = parts })
    else err Exn.utxo_error

-- An amount of None fails the test that it is an int.
unfoldable pub add_amount : UtxoAmounts → ℕ → Option ℕ → Result UtxoAmounts
add_amount u seq_no none = err Exn.utxo_error
add_amount u seq_no (some amount) =
    ok (record u { items = u.items ++ str seq_no ∷ str amount ∷ [] })

-- The loop of `remove_seq_no`, over the even indices from `i`: `none` is its `else`.
find_from : ℕ → Text → List Text → Option ℕ
find_from i s [] = none
find_from i s (x ∷ []) = if text_eq x s then some i else none
find_from i s (x ∷ y ∷ r) = if text_eq x s then some i else find_from (suc (suc i)) s r

pop_at : UtxoAmounts → Option ℕ → Result UtxoAmounts
pop_at u none = err Exn.utxo_not_found
pop_at u (some i) =
    if ltb (i + 1) (length u.items)
    then ok (record u { items = pop i (pop i u.items) })
    else err Exn.utxo_error

unfoldable pub remove_seq_no : UtxoAmounts → ℕ → Result UtxoAmounts
unfolding find_from pop_at
remove_seq_no u seq_no = pop_at u (find_from 0 (str seq_no) u.items)

-- The loop of `sum_amounts`: the total so far and the sequence numbers not yet found.
sum_from : List Text → List ℕ → ℕ → Result (ℕ × List ℕ)
sum_from [] seq_nos total = ok (total, seq_nos)
sum_from (x ∷ []) seq_nos total = do
  n ← or_raise (int x) Exn.value_error
  raise_if (contains n seq_nos) Exn.index_error
  ok (total, seq_nos)
sum_from (x ∷ y ∷ r) seq_nos total = do
  n ← or_raise (int x) Exn.value_error
  elim (contains n seq_nos) [
    | true ↦ (do
      a ← or_raise (int y) Exn.value_error
      let left = remove n seq_nos
      elim (is_empty left) [ true ↦ ok (total + a, left) | false ↦ sum_from r left (total + a) ])
    | false ↦ sum_from r seq_nos total
  ]

unfoldable pub sum_amounts : UtxoAmounts → List ℕ → Result ℕ
unfolding sum_from
sum_amounts u seq_nos = do
  (total, left) ← sum_from u.items seq_nos 0
  if is_empty left then ok total else err Exn.utxo_not_found

-- The loop of `as_output_list`; a `ValueError` of `int` becomes a `UTXOError`.
outputs_from : Text → List Text → Result (List Output)
outputs_from address [] = ok []
outputs_from address (x ∷ []) = err Exn.index_error
outputs_from address (x ∷ y ∷ r) = do
  n ← or_raise (int x) Exn.utxo_error
  a ← or_raise (int y) Exn.utxo_error
  rest ← outputs_from address r
  ok (record { address = address; seq_no = n; amount = some a } ∷ rest)

unfoldable pub as_output_list : UtxoAmounts → Result (List Output)
unfolding outputs_from
as_output_list u =
    if length u.items % 2 == 0 then outputs_from u.address u.items else err Exn.utxo_error

unfoldable pub as_str : UtxoAmounts → Result Text
as_str u = if length u.items % 2 == 0 then ok (join u.items) else err Exn.utxo_error
