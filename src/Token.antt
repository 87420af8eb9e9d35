-- ===== src/Token.antt =====
-- `TokenStaticHelper` of sovtoken/sovtoken/request_handlers/token_utils.py: the token state (a trie)
-- and the UTXO cache, changed together. Keys and values of the state are bytes that encode texts,
-- and are written as these texts.
pub mod Simulates
pub mod Writes
pub mod Agreement
pub mod Keys
pub mod Funds
use token_plugin.Prelude.{
  ℕ, ◌+◌, Bool, true, false, Option, none, some, List, [], ◌∷◌, ◌==◌, ltb, if◌then◌else◌,
}
use token_plugin.Text.{Text}
use token_plugin.Text.Decimal.{str}
use token_plugin.Text.Split.{join, split}
use token_plugin.Errors.{Exn, Result, ok, err, is_utxo_error, map_err}
use token_plugin.Errors.Exec.{Exec, ◌>>◌}
use token_plugin.Storage.{KvStore, TrieState}
use token_plugin.Amounts.{Output}
use token_plugin.Cache.{Input, add_output, spend_output, sum_inputs}

-- An entry of the "outputs" of an operation.
pub record Payment : Type 0 where
  pub address : Text
  pub amount : ℕ

unfoldable pub create_state_key : Text → ℕ → Text
create_state_key address seq_no = join (address ∷ str seq_no ∷ [])

unfoldable pub parse_state_key : Text → List Text
parse_state_key key = split key

-- `str(amount)`, of an amount that may be None.
unfoldable pub amount_text : Option ℕ → Text
amount_text none = b'N' ∷ b'o' ∷ b'n' ∷ b'e' ∷ []
amount_text (some a) = str a

unfoldable pub sum_outputs : List Payment → ℕ
sum_outputs [] = 0
sum_outputs (o ∷ os) = o.amount + sum_outputs os

-- The last line of the source is not reached: of two integers one of the three tests holds.
unfoldable pub validate_given_inputs_outputs : ℕ → ℕ → Result (Unit {0})
validate_given_inputs_outputs inputs_sum required_amount =
    if inputs_sum == required_amount
    then ok tt
    else if ltb required_amount inputs_sum
    then err Exn.extra_funds
    else if ltb inputs_sum required_amount
    then err Exn.insufficient_funds
    else err Exn.invalid_client_message

-- `except UTXOError` of `sum_inputs`.
unfoldable pub to_invalid_funds : Exn → Exn
to_invalid_funds e = if is_utxo_error e then Exn.invalid_funds else e

module _ (kv : KvStore) (ts : TrieState) where
  pub record World : Type 0 where
    pub state : ts.State
    pub cache : kv.Cache

  unfoldable pub set_state : (ts.State → ts.State) → Exec World (Unit {0})
  set_state f w = (ok tt, record w { state = f w.state })

  unfoldable pub on_cache : (kv.Cache → Result kv.Cache) → Exec World (Unit {0})
  on_cache f w = elim (f w.cache) [ ok c ↦ (ok tt, record w { cache = c }) | err e ↦ (err e, w) ]

  unfoldable pub spend_input : Text → ℕ → Bool → Bool → Exec World (Unit {0})
  spend_input address seq_no is_committed remove_spent =
      let key = create_state_key address seq_no in
      set_state (λ s. if remove_spent then ts.remove s key else ts.set s key [])
      >> on_cache (λ c.
        spend_output kv c (record { address = address; seq_no = seq_no; amount = none })
          is_committed)

  unfoldable pub add_new_output : Output → Bool → Exec World (Unit {0})
  add_new_output output is_committed =
      let key = create_state_key output.address output.seq_no in
      set_state (λ s. ts.set s key (amount_text output.amount))
      >> on_cache (λ c. add_output kv c output is_committed)

  unfoldable pub token_sum_inputs : kv.Cache → List Input → Bool → Result ℕ
  token_sum_inputs cache inputs is_committed =
      map_err to_invalid_funds (sum_inputs kv cache inputs is_committed)
