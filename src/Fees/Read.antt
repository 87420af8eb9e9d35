-- ===== src/Fees/Read.antt =====
-- What is read of the fees: `get_fee_from_state` with its proof of
-- sovtokenfees/sovtokenfees/req_handlers/fees_utils.py, the handlers of GET_FEE and GET_FEES under
-- req_handlers/read_handlers, and what the authorizer of fees_authorizer.py reads.
pub mod Current
use token_plugin.Prelude.{
  ℕ, ◌≡◌, ◌≢◌, Bool, true, false, Option, none, some, List, [], ◌∷◌, if◌then◌else◌,
}
use token_plugin.Text.{Text, text_eq}
use token_plugin.Text.Dict.{get, assign}
use token_plugin.Errors.{Exn, Result, ok, err, ◌>>=◌}
use token_plugin.Storage.{TrieState}
use token_plugin.Proofs.{Bls, Proof, signed_proof}
use token_plugin.Replies.{
  Json, json_text, Operation, Entry, identifier_entry, number_entry, answer_entry, proof_entry,
  Reply, identifier_key, req_id_key, state_proof_key, update_operation,
}
use token_plugin.Fees.SetFees.{
  build_path_for_set_fees, Fees, FeeValue, number, table, Serializer, decoded, get_fee_from_state,
}

-- The value that a proof has for a key, decoded.
abbrev pub value_of : (Text → Text) → Option Text → Option Text
value_of get_decoded none = none
value_of get_decoded (some v) = some (get_decoded v)

-- What a state proves: its root, its last committed state, and the nodes and the value for a key, of
-- which `none` is a `KeyError`. A value is not empty, and decodes to what the state has.
pub record Proving (ts : TrieState) : Type 0 where
  pub committed : ts.State → ts.State
  pub root_hash : ts.State → Text
  pub generate_state_proof : ts.State → Text → Option (Text × Option Text)
  pub get_decoded : Text → Text
  pub proof-missing :
      (s : ts.State) (k : Text) → generate_state_proof s k ≡ none → ts.get s k ≡ none
  pub proof-value :
      (s : ts.State) (k nodes : Text) (v : Option Text)
      → generate_state_proof s k ≡ some (nodes, v)
      → ts.get s k ≡ value_of get_decoded v
  pub value-ne-nil :
      (s : ts.State) (k nodes v : Text) → generate_state_proof s k ≡ some (nodes, some v) → v ≢ []

-- `fees if fees is not None else {}`
abbrev pub or_no_fees : Option FeeValue → FeeValue
or_no_fees none = table []
or_no_fees (some v) = v

-- `if serz: serz = state.get_decoded(serz)`
unfoldable pub decode_value : (Text → Text) → Option Text → Option Text
decode_value get_decoded none = none
decode_value get_decoded (some []) = some []
decode_value get_decoded (some (c ∷ s)) = some (get_decoded (c ∷ s))

-- `metadata[FEES_FIELD_NAME]`, if there is metadata and it has the name.
unfoldable pub get_fees_alias_from_constraint : Text → Option (List (Text × Text)) → Option Text
get_fees_alias_from_constraint fees_field_name none = none
get_fees_alias_from_constraint fees_field_name (some []) = none
get_fees_alias_from_constraint fees_field_name (some ((k, v) ∷ d)) =
    if text_eq k fees_field_name
    then some v
    else get_fees_alias_from_constraint fees_field_name (some d)

-- 'alias', 'fee' and 'fees'
abbrev pub alias_key : Text
alias_key = b'a' ∷ b'l' ∷ b'i' ∷ b'a' ∷ b's' ∷ []

abbrev pub fee_key : Text
fee_key = b'f' ∷ b'e' ∷ b'e' ∷ []

abbrev pub fees_key : Text
fees_key = b'f' ∷ b'e' ∷ b'e' ∷ b's' ∷ []

-- `request.operation.get(ALIAS)`; the static validation lets through nothing but a text.
abbrev pub alias_of : Option Json → Result (Option Text)
alias_of none = ok none
alias_of (some (json_text a)) = ok (some a)
alias_of (some _) = err Exn.type_error

module _ (ts : TrieState) (ser : Serializer) where
  -- The authorizer's `_get_fees_from_state`, of the uncommitted state.
  unfoldable pub fees_of_serz : Option Text → FeeValue
  fees_of_serz none = table []
  fees_of_serz (some []) = table []
  fees_of_serz (some (c ∷ s)) = ser.deserialize (c ∷ s)

  unfoldable pub get_fees_from_state : ts.State → FeeValue
  unfolding fees_of_serz
  get_fees_from_state config_state =
      fees_of_serz (ts.get config_state (build_path_for_set_fees none))

  module _ (ps : Proving ts) (bls : Bls) where
    abbrev pub head_of : ts.State → Bool → ts.State
    head_of state is_committed = if is_committed then ps.committed state else state

    -- Both parts of what the proof gave: the fees and the signed proof.
    unfoldable pub proven_fee :
        Text → Option (Text × Option Text) → Option FeeValue × Option (Proof bls.MultiSig)
    proven_fee root_hash none = (none, none)
    proven_fee root_hash (some (proof, serz)) =
        (decoded ts ser (decode_value ps.get_decoded serz), signed_proof bls root_hash proof)

    -- `get_fee_from_state` with `with_proof`; no proof, and one without a multi-signature, are both
    -- false for the callers.
    unfoldable pub get_fee_with_proof :
        ts.State → Option Text → Bool → Option FeeValue × Option (Proof bls.MultiSig)
    unfolding proven_fee
    get_fee_with_proof state fees_alias is_committed =
        let head = head_of state is_committed in
        proven_fee (ps.root_hash head)
          (ps.generate_state_proof head (build_path_for_set_fees fees_alias))

    -- `if proof: result[STATE_PROOF] = proof`
    unfoldable pub with_state_proof :
        Option (Proof bls.MultiSig)
        → Reply (Option FeeValue) bls.MultiSig
        → Reply (Option FeeValue) bls.MultiSig
    unfolding assign
    with_state_proof none result = result
    with_state_proof (some pr) result = assign state_proof_key (proof_entry pr) result

    -- `GetFeeHandler.get_result`; the operation's fields replace those that are there.
    unfoldable pub get_fee_result :
        ts.State → Text → ℕ → Operation → Result (Reply (Option FeeValue) bls.MultiSig)
    unfolding get_fee_with_proof with_state_proof update_operation get
    get_fee_result state identifier req_id operation = do
      alias ← alias_of (get alias_key operation)
      let (fee, proof) = get_fee_with_proof state alias true
      ok (
          update_operation
            (with_state_proof proof (
              (identifier_key, identifier_entry identifier)
              ∷ (req_id_key, number_entry req_id)
              ∷ (fee_key, answer_entry fee)
              ∷ []))
            operation)

    -- `GetFeesHandler.get_fees`, with a proof and without.
    unfoldable pub get_fees_with_proof : ts.State → Bool → FeeValue × Option (Proof bls.MultiSig)
    unfolding get_fee_with_proof
    get_fees_with_proof state is_committed =
        let (fees, proof) = get_fee_with_proof state none is_committed in (or_no_fees fees, proof)

    unfoldable pub get_fees : ts.State → Bool → FeeValue
    get_fees state is_committed =
        or_no_fees (get_fee_from_state ts ser (head_of state is_committed) none)

    -- `GetFeesHandler.get_result`, likewise.
    unfoldable pub get_fees_result :
        ts.State → Text → ℕ → Operation → Reply (Option FeeValue) bls.MultiSig
    unfolding get_fees_with_proof with_state_proof update_operation
    get_fees_result state identifier req_id operation =
        let (fees, proof) = get_fees_with_proof state true in
        update_operation
          (with_state_proof proof (
            (identifier_key, identifier_entry identifier)
            ∷ (req_id_key, number_entry req_id)
            ∷ (fees_key, answer_entry (some fees))
            ∷ []))
          operation
