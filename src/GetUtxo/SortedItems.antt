-- ===== src/GetUtxo/SortedItems.antt =====
-- `SortedItems` of sovtoken/sovtoken/util.py, over Python's `heapq`, which is an interface here: the
-- loop of `sorted_list` runs until the heap is empty.
use token_plugin.Prelude.{
  ℕ, zero, suc, Option, none, some, List, [], ◌∷◌, ◌++◌, is_empty, if◌then◌else◌,
}
use token_plugin.Text.{Text}
use token_plugin.Text.Decimal.{int}
use token_plugin.Errors.{Exn, Result, ok, ◌>>=◌, or_raise}
use token_plugin.Amounts.{Output}
use token_plugin.Token.{parse_state_key}
use token_plugin.GetUtxo.{unpack_two}

-- `heappop` of an empty heap has nothing to return.
pub record Heapq : Type 1 where
  pub Heap : Type 0
  pub new : Heap
  pub heappush : Heap → Output → Heap
  pub heappop : Heap → Option (Output × Heap)

module _ (h : Heapq) where
  -- `none` means that the fuel ran out before the heap did.
  unfoldable pub drain : ℕ → h.Heap → List Output → Option (List Output)
  drain zero heap ordered = none
  drain (suc fuel) heap ordered = elim (h.heappop heap) [
    | none ↦ some ordered
    | some (o, rest) ↦ drain fuel rest (ordered ++ o ∷ [])
  ]

  unfoldable pub sorted_list : ℕ → h.Heap → Option (List Output)
  unfolding drain
  sorted_list fuel heap = drain fuel heap []

  -- The loop over the entries of the state, which adds each that is not spent.
  unfoldable pub push_entry : Text × Text → Text → h.Heap → Result h.Heap
  push_entry parts amount heap = if is_empty amount then ok heap else (do
    n ← or_raise (int parts.1) Exn.value_error
    a ← or_raise (int amount) Exn.value_error
    ok (h.heappush heap (record { address = parts.0; seq_no = n; amount = some a })))

  unfoldable pub push_each : (Text → Text) → List (Text × Text) → h.Heap → Result h.Heap
  unfolding push_entry
  push_each rlp [] heap = ok heap
  push_each rlp ((k, v) ∷ rv) heap = do
    parts ← unpack_two (parse_state_key k)
    next ← push_entry parts (rlp v) heap
    push_each rlp rv next
