-- ===== src/Cache.antt =====
-- `UTXOCache` of sovtoken/sovtoken/utxo_cache.py and `UTXOAmounts.get_amounts`: the unspent outputs
-- of every address, over the given key-value store. A method returns the new store or raises; each
-- of them raises before its only write.
pub mod Refines
pub mod Sums
use token_plugin.Prelude.{
  ℕ, ◌+◌, Bool, true, false, Option, none, some, List, [], ◌∷◌, if◌then◌else◌, add,
}
use token_plugin.Text.{Text, text_eq}
use token_plugin.Errors.{Exn, Result, ok, err, ◌>>=◌}
use token_plugin.Storage.{KvStore}
use token_plugin.Amounts.{
  Output, UtxoAmounts, init, add_amount, remove_seq_no, sum_amounts, as_output_list, as_str,
}

-- An entry of the "inputs" of an operation.
pub record Input : Type 0 where
  pub address : Text
  pub seq_no : ℕ

-- `addresses[addr].add(seq_no)` on the `defaultdict(set)` of `sum_inputs`.
unfoldable pub add_seq_no : List (Text × List ℕ) → Text → ℕ → List (Text × List ℕ)
add_seq_no [] a n = (a, n ∷ []) ∷ []
add_seq_no ((k, s) ∷ d) a n = if text_eq k a then (k, add n s) ∷ d else (k, s) ∷ add_seq_no d a n

unfoldable pub group_inputs : List Input → List (Text × List ℕ) → List (Text × List ℕ)
unfolding add_seq_no
group_inputs [] d = d
group_inputs (i ∷ is) d = group_inputs is (add_seq_no d i.address i.seq_no)

module _ (kv : KvStore) where
  open kv use {Cache, get, set}

  unfoldable pub get_amounts : Cache → Text → Bool → Bool → Result UtxoAmounts
  get_amounts cache address make_new is_committed = elim (get cache address is_committed) [
    | some d ↦ init address (some d)
    | none ↦ if make_new then init address none else err Exn.utxo_address_not_found
  ]

  unfoldable pub add_output : Cache → Output → Bool → Result Cache
  add_output cache output is_committed = do
    amounts ← get_amounts cache output.address true is_committed
    amounts' ← add_amount amounts output.seq_no output.amount
    s ← as_str amounts'
    ok (set cache output.address s is_committed)

  unfoldable pub spend_output : Cache → Output → Bool → Result Cache
  spend_output cache output is_committed = do
    amounts ← get_amounts cache output.address false is_committed
    amounts' ← remove_seq_no amounts output.seq_no
    s ← as_str amounts'
    ok (set cache output.address s is_committed)

  unfoldable pub get_unspent_outputs : Cache → Text → Bool → Result (List Output)
  get_unspent_outputs cache address is_committed = do
    amounts ← get_amounts cache address true is_committed
    as_output_list amounts

  -- The second loop of `sum_inputs`.
  unfoldable pub sum_groups : Cache → Bool → List (Text × List ℕ) → ℕ → Result ℕ
  sum_groups cache is_committed [] output_val = ok output_val
  sum_groups cache is_committed ((addr, seq_nos) ∷ d) output_val = do
    amounts ← get_amounts cache addr false is_committed
    total ← sum_amounts amounts seq_nos
    sum_groups cache is_committed d (output_val + total)

  unfoldable pub sum_inputs : Cache → List Input → Bool → Result ℕ
  unfolding sum_groups group_inputs
  sum_inputs cache inputs is_committed = sum_groups cache is_committed (group_inputs inputs []) 0
