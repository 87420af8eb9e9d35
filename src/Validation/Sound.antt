-- ===== src/Validation/Sound.antt =====
-- What the static validation of a request, and that of its fees, ensure.
use mathlib.Core.Path.{subst}
use token_plugin.Validation.Dispatch.{
  fees_field, static_req_validation, address_validate, from_validate, txt_get_utxo_validate,
}
use token_plugin.Prelude.{
  ℕ, ==_iff, ap, Option, is_empty, ◌≡◌, refl, sym, ◌∙◌, ◌↔◌, false, none, some, List, [], ◌∷◌,
  arith, ◌==◌, length, Option-cases, inl, inr,
}
use token_plugin.Text.{Text}
use token_plugin.Errors.{Exn, ok, err, ◌>>=◌, ◌>>◌, >>=-eq-ok}
use token_plugin.Cache.{Input}
use token_plugin.Token.{Payment}
use token_plugin.Ledger.{AreDistinct}
use token_plugin.Ledger.Fresh.{ArePaidOnce}
use token_plugin.Validation.Unique.{passes_both, outputs_field_iff, inputs_field_iff}
use token_plugin.Validation.{
  Message, Check, ◌or_else◌, outputs_field, inputs_field, Operation, Bases, outputs_validate,
  inputs_signed, inputs_validate, txn_xfer_public_validate, static_validation,
  txn_mint_public_validate, TxnType, mint_public, xfer_public, get_utxo, other_type, address_field,
  caught, decode_address_to_vk_bytes,
}

or_else-eq-none : (c rest : Check) → (c or_else rest) ≡ ok none → (c ≡ ok none) × (rest ≡ ok none)
or_else-eq-none (ok none) rest h = (refl, h)
or_else-eq-none (ok (some e)) rest h = cc h
or_else-eq-none (err e) rest h = cc h

outputs_validate-eq-none :
    (bases : Bases) (op : Operation)
    → outputs_validate bases op ≡ ok none
    → (os : List Payment) × (op.outputs ≡ some os) × (outputs_field bases.outputs os ≡ ok none)
unfolding outputs_validate
outputs_validate-eq-none bases op h = elim (Option-cases op.outputs) [
  | inl missing ↦ cc (rw missing at h)
  | inr (os, there) ↦ (os, there, rw there at h)
]

inputs_signed-eq-none :
    (bases : Bases) (is : List Input) (sigs : List Text)
    → inputs_signed bases is sigs ≡ ok none
    → (length is ≡ length sigs) × (inputs_field bases.inputs is ≡ ok none)
unfolding inputs_signed
inputs_signed-eq-none bases is sigs h = ground arith

inputs_validate-eq-none :
    (bases : Bases) (op : Operation)
    → inputs_validate bases op ≡ ok none
    → (is : List Input) × (sigs : List Text) × (op.inputs ≡ some is)
      × (op.signatures ≡ some sigs)
      × (inputs_signed bases is sigs ≡ ok none)
unfolding inputs_validate
inputs_validate-eq-none bases op h = elim (Option-cases op.inputs) [
  | inl missing ↦ cc (rw missing at h)
  | inr (is, there) ↦ elim (Option-cases op.signatures) [
    | inl unsigned ↦ cc (rw (there, unsigned) at h)
    | inr (sigs, signed) ↦ (is, sigs, there, signed, rw (there, signed) at h)
  ]
]

-- What the static validation of a request ensures, by the type of its operation.
abbrev pub IsSound : (Text → Option (List ℕ)) → Operation → TxnType → Type 0
IsSound b58decode_check op mint_public =
    (os : List Payment) × (op.outputs ≡ some os) × ArePaidOnce os × (is_empty os ≡ false)
IsSound b58decode_check op xfer_public =
    (is : List Input) × (os : List Payment) × (sigs : List Text) × (op.inputs ≡ some is)
    × (op.outputs ≡ some os)
    × (op.signatures ≡ some sigs)
    × AreDistinct is
    × ArePaidOnce os
    × (length is ≡ length sigs)
IsSound b58decode_check op get_utxo =
    (a : Text) × (vk : List ℕ) × (op.address ≡ some a)
    × (b58decode_check a ≡ some vk)
    × (length vk ≡ 32)
IsSound b58decode_check op other_type = ⊥

passed : (c : Check) → static_validation c ≡ ok tt → c ≡ ok none
unfolding static_validation
passed (ok none) e = refl
passed (ok (some x)) e = cc e
passed (err x) e = cc e

xfer-IsSound :
    (b58decode_check : Text → Option (List ℕ)) (bases : Bases) (op : Operation)
    → (outputs_validate bases op or_else inputs_validate bases op) ≡ ok none
    → IsSound b58decode_check op xfer_public
xfer-IsSound b58decode_check bases op h =
    let (outs, ins) = or_else-eq-none (outputs_validate bases op) (inputs_validate bases op) h in
    let (os, paid, checked) = outputs_validate-eq-none bases op outs in
    let (is, sigs, named, signed, counted) = inputs_validate-eq-none bases op ins in
    let (same, distinct) = inputs_signed-eq-none bases is sigs counted in
    (
      is,
      os,
      sigs,
      named,
      paid,
      signed,
      ((inputs_field_iff bases.inputs is).0 distinct).1,
      ((outputs_field_iff bases.outputs os).0 checked).1,
      same,
    )

-- What follows the outputs' validation in a mint.
abbrev mint_rest : Operation → Option Message → Check
mint_rest op (some e) = ok (some e)
mint_rest op none = elim op.outputs [ some [] ↦ err Exn.invalid_client_request | _ ↦ ok none ]

mint_rest-eq-none :
    (op : Operation) (e : Option Message) (os : List Payment)
    → op.outputs ≡ some os
    → mint_rest op e ≡ ok none
    → (e ≡ none) × (is_empty os ≡ false)
mint_rest-eq-none op (some x) os paid h = cc h
mint_rest-eq-none op none [] paid h = cc (rw paid at h)
mint_rest-eq-none op none (o ∷ os) paid h = (refl, refl)

mint_rest-quiet : (op : Operation) (e : Option Message) → mint_rest op e ≡ ok none → e ≡ none
mint_rest-quiet op (some x) h = cc h
mint_rest-quiet op none h = refl

mint-IsSound :
    (b58decode_check : Text → Option (List ℕ)) (bases : Bases) (op : Operation)
    → (outputs_validate bases op >>= mint_rest op) ≡ ok none
    → IsSound b58decode_check op mint_public
mint-IsSound b58decode_check bases op h =
    let (e, outs, rest) = >>=-eq-ok (outputs_validate bases op) (mint_rest op) h in
    let (os, paid, checked) =
      outputs_validate-eq-none bases op (outs ∙ ap ok (mint_rest-quiet op e rest)) in
    (
      os,
      paid,
      ((outputs_field_iff bases.outputs os).0 checked).1,
      (mint_rest-eq-none op e os paid rest).1,
    )

address_field-decoded :
    (b58decode_check : Text → Option (List ℕ)) (a : Text)
    → address_field b58decode_check a ≡ ok none
    → (vk : List ℕ) × (b58decode_check a ≡ some vk) × (length vk ≡ 32)
unfolding address_field decode_address_to_vk_bytes caught
address_field-decoded b58decode_check a h = elim (Option-cases (b58decode_check a)) [
  | inl unknown ↦ cc (rw (unknown, address_field, decode_address_to_vk_bytes) at h)
  | inr (vk, decoded) ↦
      (vk, decoded, ground (arith, rw (decoded, address_field, decode_address_to_vk_bytes) at h))
]

address-IsSound :
    (b58decode_check : Text → Option (List ℕ)) (seq_no_field : ℕ → Check) (op : Operation)
    → (address_validate b58decode_check op >> from_validate seq_no_field op) ≡ ok none
    → IsSound b58decode_check op get_utxo
unfolding address_validate
address-IsSound b58decode_check seq_no_field op h =
    let (u, valid, rest) = >>=-eq-ok (address_validate b58decode_check op) _ h in
    elim (Option-cases op.address) [
      | inl missing ↦ cc (rw missing at valid)
      | inr (a, there) ↦
          let (vk, decoded, full) =
            address_field-decoded b58decode_check a (passed _ (rw there at valid)) in
          (a, vk, there, decoded, full)
    ]

-- A request that passes the static validation has one of the three types of the token ledger. A
-- transfer names no output twice, pays no address twice, and has a signature for each input; a mint
-- has outputs and pays no address twice; a query has an address that decodes to 32 bytes.
pub static_req_validation_sound :
    (b58decode_check : Text → Option (List ℕ)) (seq_no_field : ℕ → Check) (bases : Bases)
    (op : Operation)
    → static_req_validation b58decode_check seq_no_field bases op ≡ ok tt
    → IsSound b58decode_check op op.txn_type
unfolding static_req_validation txn_xfer_public_validate txn_mint_public_validate
    txt_get_utxo_validate outputs_validate inputs_validate address_validate from_validate
static_req_validation_sound b58decode_check seq_no_field bases op h = go op.txn_type refl
  where
    go : (t : TxnType) → op.txn_type ≡ t → IsSound b58decode_check op op.txn_type
    go mint_public e =
        subst (IsSound b58decode_check op) (sym e)
          (mint-IsSound b58decode_check bases op (passed _ (rw e at h)))
    go xfer_public e =
        subst (IsSound b58decode_check op) (sym e)
          (xfer-IsSound b58decode_check bases op (passed _ (rw e at h)))
    go get_utxo e =
        subst (IsSound b58decode_check op) (sym e)
          (address-IsSound b58decode_check seq_no_field op (passed _ (rw e at h)))
    go other_type e = cc (rw e at h)

-- The fees of a request pass exactly when their base class and signature field pass them, their
-- inputs and outputs are passed by their base classes and name no output and pay no address twice,
-- and there is a signature for each input.
pub fees_field_iff :
    (base : Check) (bases : Bases) (signatures_validator : List Text → Check) (inputs : List Input)
    (outputs : List Payment) (signatures : List Text)
    → (fees_field base bases signatures_validator inputs outputs signatures ≡ ok none) ↔ (
        (base ≡ ok none)
        × (bases.inputs inputs ≡ ok none)
        × AreDistinct inputs
        × (bases.outputs outputs ≡ ok none)
        × ArePaidOnce outputs
        × (signatures_validator signatures ≡ ok none)
        × (length inputs ≡ length signatures))
unfolding fees_field
fees_field_iff base bases signatures_validator inputs outputs signatures =
    let last =
      passes_both
        (base
          or_else inputs_field bases.inputs inputs
          or_else outputs_field bases.outputs outputs
          or_else signatures_validator signatures)
        (length inputs == length signatures) Message.other_message in
    let ins = inputs_field_iff bases.inputs inputs in
    let outs = outputs_field_iff bases.outputs outputs in
    (
      λ h.
          let (front, same) = last.0 h in
          let (front, signed) = or_else-eq-none _ _ front in
          let (front, paid) = or_else-eq-none _ _ front in
          let (start, named) = or_else-eq-none _ _ front in
          (
            start,
            (ins.0 named).0,
            (ins.0 named).1,
            (outs.0 paid).0,
            (outs.0 paid).1,
            signed,
            (==_iff _ _).0 same,
          ),
      λ (start, named, distinct, paid, once, signed, same). last.1 (
        rw (start, ins.1 (named, distinct), outs.1 (paid, once), signed) refl,
        (==_iff _ _).1 same,
      ),
    )
