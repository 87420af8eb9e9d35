-- ===== src/Fees/Messages.antt =====
-- The messages of SET_FEES and GET_FEE and their static validation: `GetFeeMsg`, `SetFeesField` and
-- `SetFeesMsg` of sovtokenfees/sovtokenfees/messages/fields.py, and `static_validation` of
-- req_handlers/write_handlers/set_fees_handler.py and req_handlers/read_handlers/get_fee_handler.py.
-- plenum's fields and its `MessageBase` are an interface.
pub mod Sound
use token_plugin.Prelude.{
  ℕ, ◌≡◌, ◌≤◌, Bool, true, false, Option, none, some, List, [], ◌∷◌, if◌then◌else◌, is_empty,
  length, All,
}
use token_plugin.Prelude.Int.{ℤ, pos}
use token_plugin.Text.{Text, text_eq}
use token_plugin.Errors.{Exn, Result, ok, err, map_err, ◌>>=◌}
use token_plugin.Validation.{Message, Check}

-- A value of a message.
pub data Value : Type 0 where
  text : Text → Value
  map_of : List (Text × ℤ) → Value
  other_value : Value

-- `request.operation`
abbrev pub Operation : Type 0
Operation = List (Text × Value)

abbrev pub get : Text → Operation → Option Value
get k [] = none
get k ((j, v) ∷ d) = if text_eq j k then some v else get k d

abbrev pub Schema : Type 0
Schema = List (Text × (Value → Check))

-- plenum's fields: `validate` of each, and `MapField._specific_validation`, which a subclass calls.
-- `field_base` is `FieldBase.validate` with the `_specific_validation` of a subclass of `MapField`.
pub record Fields : Type 0 where
  pub constant_field : Text → Value → Check
  pub limited_length_string_field : ℕ → Value → Check
  pub non_empty_string_field : Text → Check
  pub non_negative_number_field : ℤ → Check
  pub map_field : (Text → Check) → (ℤ → Check) → Value → Check
  pub field_base : (Value → Check) → Value → Check
  pub message_base : Schema → Operation → Result (Unit {0})

abbrev pub IsNatural : ℤ → Type 0
IsNatural z = (n : ℕ) × (z ≡ pos n)

-- What a value has that a field passes; a message is made only of an operation that has every field
-- of the schema, and each of them passes.
pub record IsFields (f : Fields) : Type 0 where
  pub limited :
      (n : ℕ) (v : Value)
      → f.limited_length_string_field n v ≡ ok none
      → (t : Text) × (v ≡ text t) × (is_empty t ≡ false) × (length t ≤ n)
  pub non_empty : (t : Text) → f.non_empty_string_field t ≡ ok none → is_empty t ≡ false
  pub non_negative : (z : ℤ) → f.non_negative_number_field z ≡ ok none → IsNatural z
  pub mapped :
      (k : Text → Check) (c : ℤ → Check) (v : Value)
      → f.map_field k c v ≡ ok none
      → (d : List (Text × ℤ)) × (v ≡ map_of d) × All (λ e. (k e.0 ≡ ok none) × (c e.1 ≡ ok none)) d
  pub specific : (c : Value → Check) (v : Value) → f.field_base c v ≡ ok none → c v ≡ ok none
  pub made :
      (s : Schema) (op : Operation)
      → f.message_base s op ≡ ok tt
      → All (λ e. (v : Value) × (get e.0 op ≡ some v) × (e.1 v ≡ ok none)) s

-- 'type', 'alias' and 'fees'
abbrev pub txn_type_field : Text
txn_type_field = b't' ∷ b'y' ∷ b'p' ∷ b'e' ∷ []

abbrev pub alias_field : Text
alias_field = b'a' ∷ b'l' ∷ b'i' ∷ b'a' ∷ b's' ∷ []

abbrev pub fees_name : Text
fees_name = b'f' ∷ b'e' ∷ b'e' ∷ b's' ∷ []

-- `FeesTransactions`: '20000' and '20003'
abbrev pub set_fees_type : Text
set_fees_type = b'2' ∷ b'0' ∷ b'0' ∷ b'0' ∷ b'0' ∷ []

abbrev pub get_fee_type : Text
get_fee_type = b'2' ∷ b'0' ∷ b'0' ∷ b'0' ∷ b'3' ∷ []

abbrev pub fee_alias_length : ℕ
fee_alias_length = 128

-- `except TypeError`
unfoldable pub as_invalid_request : Exn → Exn
as_invalid_request Exn.type_error = Exn.invalid_client_request
as_invalid_request e = e

module _ (f : Fields) where
  -- `SetFeesField._specific_validation`; the message gets a prefix.
  unfoldable pub set_fees_field : Value → Check
  set_fees_field val = f.map_field f.non_empty_string_field f.non_negative_number_field val >>= λ m.
      elim m [ some e ↦ ok (some Message.other_message) | none ↦ ok none ]

  -- `GetFeeMsg.schema` and `SetFeesMsg.schema`
  unfoldable pub get_fee_schema : Schema
  get_fee_schema =
      (txn_type_field, f.constant_field get_fee_type)
      ∷ (alias_field, f.limited_length_string_field fee_alias_length)
      ∷ []

  unfoldable pub set_fees_schema : Schema
  set_fees_schema =
      (txn_type_field, f.constant_field set_fees_type)
      ∷ (fees_name, f.field_base set_fees_field)
      ∷ []

  -- `static_validation` of the two handlers
  unfoldable pub set_fees_static_validation : Operation → Result (Unit {0})
  set_fees_static_validation op = map_err as_invalid_request (f.message_base set_fees_schema op)

  unfoldable pub get_fee_static_validation : Operation → Result (Unit {0})
  get_fee_static_validation op = map_err as_invalid_request (f.message_base get_fee_schema op)
