-- ===== src/Fees/SetFees.antt =====
-- The fees in the config state: sovtokenfees/sovtokenfees/domain.py, `get_fee_from_state` of
-- req_handlers/fees_utils.py (without its proof) and `update_state` of
-- req_handlers/write_handlers/set_fees_handler.py. The serializer is plenum's and is an interface.
pub mod Consistent
pub mod Legacy
use token_plugin.Prelude.{
  ℕ, zero, suc, ◌≡◌, ◌≢◌, Bool, Option, none, some, List, [], ◌∷◌, if◌then◌else◌,
}
use token_plugin.Text.{Text, text_eq}
use token_plugin.Text.Split.{join}
use token_plugin.Errors.{Exn, Result, ok, err, ◌>>=◌}
use token_plugin.Storage.{TrieState}

-- '200' and 'fees'
abbrev pub fees_state_prefix : Text
fees_state_prefix = b'2' ∷ b'0' ∷ b'0' ∷ []

abbrev pub fees_key_for_all : Text
fees_key_for_all = b'f' ∷ b'e' ∷ b'e' ∷ b's' ∷ []

-- An empty alias is false, as None is.
unfoldable pub build_path_for_set_fees : Option Text → Text
unfolding join
build_path_for_set_fees none = join (fees_state_prefix ∷ fees_key_for_all ∷ [])
build_path_for_set_fees (some []) = join (fees_state_prefix ∷ fees_key_for_all ∷ [])
build_path_for_set_fees (some (c ∷ alias)) = join (fees_state_prefix ∷ (c ∷ alias) ∷ [])

abbrev pub Fees : Type 0
Fees = List (Text × ℕ)

-- What the state keeps: the fee of one alias, or the fees of all.
pub data FeeValue : Type 0 where
  number : ℕ → FeeValue
  table : Fees → FeeValue

-- `config_state_serializer`: what it writes is not empty and reads back.
pub record Serializer : Type 0 where
  pub serialize : FeeValue → Text
  pub deserialize : Text → FeeValue
  pub deserialize-serialize : (v : FeeValue) → deserialize (serialize v) ≡ v
  pub serialize-ne-nil : (v : FeeValue) → serialize v ≢ []

-- `d[k] = x`
unfoldable pub set_entry : Text → ℕ → Fees → Fees
set_entry k x [] = (k, x) ∷ []
set_entry k x ((j, y) ∷ d) = if text_eq j k then (j, x) ∷ d else (j, y) ∷ set_entry k x d

-- `current.update(fees)`
unfoldable pub update : Fees → Fees → Fees
unfolding set_entry
update d [] = d
update d ((k, x) ∷ r) = update (set_entry k x d) r

-- `current_fees if current_fees else {}`, as the dict that is then updated.
unfoldable pub as_dict : Option FeeValue → Result Fees
as_dict none = ok []
as_dict (some (table d)) = ok d
as_dict (some (number zero)) = ok []
as_dict (some (number (suc n))) = err Exn.plain_exception

module _ (ts : TrieState) (ser : Serializer) where
  -- `if serz:`
  unfoldable pub decoded : Option Text → Option FeeValue
  decoded none = none
  decoded (some []) = none
  decoded (some (c ∷ s)) = some (ser.deserialize (c ∷ s))

  unfoldable pub get_fee_from_state : ts.State → Option Text → Option FeeValue
  get_fee_from_state state fees_alias = decoded (ts.get state (build_path_for_set_fees fees_alias))

  unfoldable pub set_to_state : ts.State → Text → FeeValue → ts.State
  set_to_state state key val = ts.set state key (ser.serialize val)

  unfoldable pub set_each : Fees → ts.State → ts.State
  set_each [] state = state
  set_each ((fees_alias, fees_value) ∷ r) state =
      set_each r
        (set_to_state state (build_path_for_set_fees (some fees_alias)) (number fees_value))

  unfoldable pub set_fees_update_state : Fees → ts.State → Result ts.State
  set_fees_update_state fees_from_req state = do
    current ← as_dict (get_fee_from_state state none)
    let current_fees = update current fees_from_req
    ok (
        set_to_state (set_each fees_from_req state) (build_path_for_set_fees none)
          (table current_fees))
