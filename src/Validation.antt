-- ===== src/Validation.antt =====
-- Static validation: sovtoken/sovtoken/messages/{fields,txn_validator}.py. A validator returns None
-- or a message, here `none` or the kind of the message, and may raise. The base classes of the
-- fields are plenum's, and so are parameters; base58 decoding is a parameter too.
pub mod Dispatch
pub mod Unique
pub mod Sound
use token_plugin.Prelude.{
  ℕ, Bool, true, false, Option, none, some, List, [], ◌∷◌, ◌++◌, ◌==◌, ◌&&◌, not, if◌then◌else◌,
  length, is_empty,
}
use token_plugin.Prelude.Int.{ℤ, is_positive}
use token_plugin.Text.{Text, text_eq}
use token_plugin.Errors.{Exn, Result, ok, err, ◌>>=◌, ◌>>◌, raise_if}
use token_plugin.Cache.{Input}
use token_plugin.Token.{Payment}
use token_plugin.Ledger.{input_eq}

pub data Message : Type 0 where
  wrong_verkey_length not_positive not_unique_address not_unique_input other_message : Message

abbrev pub Check : Type 0
Check = Result (Option Message)

-- `if error: return error`, and the rest if there is no message.
infixl 5 ◌or_else◌
abbrev pub ◌or_else◌ : Check → Check → Check
c or_else rest = c >>= λ m. elim m [ some e ↦ ok (some e) | none ↦ rest ]

-- `decode_address_to_vk_bytes` of sovtoken/sovtoken/util.py: `none` of the decoder is the
-- `ValueError` of `b58decode_check`.
unfoldable pub decode_address_to_vk_bytes : (Text → Option (List ℕ)) → Text → Result (List ℕ)
decode_address_to_vk_bytes b58decode_check address = elim (b58decode_check address) [
  | some vk ↦ ok vk
  | none ↦ err Exn.unknown_identifier
]

-- `except ValueError as ex: return str(ex)`
unfoldable pub caught : Exn → Check
caught Exn.value_error = ok (some Message.other_message)
caught e = err e

-- `PublicAddressField`; what the decoder raises is no `ValueError`, so nothing is caught.
unfoldable pub address_field : (Text → Option (List ℕ)) → Text → Check
address_field b58decode_check val = elim (decode_address_to_vk_bytes b58decode_check val) [
  | ok vk ↦ if length vk == 32 then ok none else ok (some Message.wrong_verkey_length)
  | err e ↦ caught e
]

-- `PublicAmountField`
unfoldable pub amount_field : ℤ → Check
amount_field val = if is_positive val then ok none else ok (some Message.not_positive)

-- `PublicOutputField`, after its base class: the address, then the amount.
unfoldable pub output_field : Check → (Text → Option (List ℕ)) → Text → ℤ → Check
output_field base b58decode_check address amount =
    base or_else address_field b58decode_check address or_else amount_field amount

-- `PublicInputField`, with plenum's `TxnSeqNoField`.
unfoldable pub input_field : Check → (Text → Option (List ℕ)) → (ℕ → Check) → Input → Check
input_field base b58decode_check seq_no_field i =
    base or_else address_field b58decode_check i.address or_else seq_no_field i.seq_no

-- A set comprehension `{key(a) for a in val}`, added to the set `s`.
module _ {A B : Type 0} (eq : B → B → Bool) (key : A → B) where
  unfoldable pub seen : B → List B → Bool
  seen k [] = false
  seen k (j ∷ s) = if eq j k then true else seen k s

  unfoldable pub set_of : List A → List B → List B
  unfolding seen
  set_of [] s = s
  set_of (x ∷ xs) s = set_of xs (if seen (key x) s then s else key x ∷ s)

-- `PublicOutputsField`, after its base class.
unfoldable pub outputs_field : (List Payment → Check) → List Payment → Check
outputs_field base val =
    base val
    or_else (if length val == length (set_of text_eq (λ (o : Payment). o.address) val [])
        then ok none
        else ok (some Message.not_unique_address))

-- `PublicInputsField`, after its base class.
unfoldable pub inputs_field : (List Input → Check) → List Input → Check
inputs_field base val =
    base val
    or_else (if length val == length (set_of input_eq (λ (i : Input). i) val [])
        then ok none
        else ok (some Message.not_unique_input))

pub data TxnType : Type 0 where
  mint_public xfer_public get_utxo other_type : TxnType

-- The keys of an operation that the validators look at; a missing key is `none`.
pub record Operation : Type 0 where
  pub txn_type : TxnType
  pub address : Option Text
  pub from_seqno : Option ℕ
  pub inputs : Option (List Input)
  pub outputs : Option (List Payment)
  pub signatures : Option (List Text)

pub record Bases : Type 0 where
  pub inputs : List Input → Check
  pub outputs : List Payment → Check

unfoldable pub outputs_validate : Bases → Operation → Check
outputs_validate bases op = elim op.outputs [
  | none ↦ err Exn.invalid_client_request
  | some outputs ↦ outputs_field bases.outputs outputs
]

-- The inputs, once both keys are there.
unfoldable pub inputs_signed : Bases → List Input → List Text → Check
inputs_signed bases inputs sigs =
    if length inputs == length sigs
    then inputs_field bases.inputs inputs
    else err Exn.invalid_client_request

unfoldable pub inputs_validate : Bases → Operation → Check
unfolding inputs_signed
inputs_validate bases op = elim op.inputs [
  | none ↦ err Exn.invalid_client_request
  | some inputs ↦ elim op.signatures [
    | none ↦ err Exn.invalid_client_request
    | some sigs ↦ inputs_signed bases inputs sigs
  ]
]

-- An operation of another type passes.
unfoldable pub txn_mint_public_validate : Bases → Operation → Check
txn_mint_public_validate bases op = elim op.txn_type [
  | TxnType.mint_public ↦ (do
    error ← outputs_validate bases op
    elim error [
      | some e ↦ ok (some e)
      | none ↦ elim op.outputs [ some [] ↦ err Exn.invalid_client_request | _ ↦ ok none ]
    ])
  | _ ↦ ok none
]

unfoldable pub txn_xfer_public_validate : Bases → Operation → Check
txn_xfer_public_validate bases op = elim op.txn_type [
  | TxnType.xfer_public ↦ outputs_validate bases op or_else inputs_validate bases op
  | _ ↦ ok none
]

-- `static_validation` of the handlers: a message is raised as an `InvalidClientRequest`.
unfoldable pub static_validation : Check → Result (Unit {0})
static_validation c = c >>= λ m. elim m [ some e ↦ err Exn.invalid_client_request | none ↦ ok tt ]
