-- ===== src/Fees/Read/Current.antt =====
-- What is read of the fees is what SET_FEES wrote.
use token_plugin.Prelude.{
  ℕ, ◌≡◌, refl, sym, ap, ◌∙◌, Bool, true, false, Option, none, some, [], ◌∷◌, if◌then◌else◌,
  is_empty, Bool-cases, inl, inr,
}
use mathlib.Core.Path.{subst}
use token_plugin.Text.{Text, text_eq, text_eq_refl, text_eq→eq}
use token_plugin.Text.Dict.{get, assign, has_key, get-assign, get-update_out}
use token_plugin.Errors.{ok, >>=-eq-ok}
use token_plugin.Storage.{TrieState}
use token_plugin.Proofs.{Bls, Proof}
use token_plugin.Replies.{
  json_text, Operation, identifier_entry, number_entry, answer_entry, client_entry, proof_entry,
  Reply, identifier_key, req_id_key, state_proof_key, update_operation,
}
use token_plugin.Fees.SetFees.{
  build_path_for_set_fees, fees_key_for_all, FeeValue, Fees, table, Serializer, update, as_dict,
  decoded, get_fee_from_state, set_each, set_fees_update_state,
}
use token_plugin.Fees.SetFees.Consistent.{
  AreNamed, build_path_for_set_fees_collides, IsConsistent, fee_of, get-set_to_state,
  set_fees_update_state-IsConsistent,
}
use token_plugin.Fees.Read.{
  Proving, decode_value, fees_of_serz, get_fees_from_state, head_of, proven_fee, get_fee_with_proof,
  get_fee_result, get_fees_with_proof, get_fees, get_fees_result, or_no_fees, with_state_proof,
  alias_key, fee_key, fees_key,
}

-- Of an alias that is not empty: its fee of the table, or the table itself for 'fees'.
abbrev pub read_fee : Text → Fees → Option FeeValue
read_fee a d = if text_eq fees_key_for_all a then some (table d) else fee_of a d

module _ (ts : TrieState) (ser : Serializer) where
  fees_of_serz-eq : (o : Option Text) → fees_of_serz ts ser o ≡ or_no_fees (decoded ts ser o)
  unfolding fees_of_serz decoded
  fees_of_serz-eq none = refl
  fees_of_serz-eq (some []) = refl
  fees_of_serz-eq (some (c ∷ s)) = refl

  get_fees_from_state-eq :
      (s : ts.State) → get_fees_from_state ts ser s ≡ or_no_fees (get_fee_from_state ts ser s none)
  unfolding get_fees_from_state get_fee_from_state
  get_fees_from_state-eq s = fees_of_serz-eq (ts.get s (build_path_for_set_fees none))

  -- After SET_FEES the state has the table.
  pub updated_table :
      (req d : Fees) (s s' : ts.State)
      → as_dict (get_fee_from_state ts ser s none) ≡ ok d
      → set_fees_update_state ts ser req s ≡ ok s'
      → get_fee_from_state ts ser s' none ≡ some (table (update d req))
  unfolding set_fees_update_state
  updated_table req d s s' current run =
      let (e, dict, written) = >>=-eq-ok (as_dict (get_fee_from_state ts ser s none)) _ run in
      let same : e ≡ d = cc (dict, current) in
      subst (λ x. get_fee_from_state ts ser x none ≡ some (table (update d req))) (cc written)
        (get-set_to_state ts ser (set_each ts ser req s) (build_path_for_set_fees none)
            (table (update e req)) none
          ∙ rw (text_eq_refl (build_path_for_set_fees none))
              (ap (λ x. some (table (update x req))) same))

  module _ (ps : Proving ts) (bls : Bls) where
    proven_fee-eq :
        (s : ts.State) (alias : Option Text) (root : Text) (o : Option (Text × Option Text))
        → ps.generate_state_proof s (build_path_for_set_fees alias) ≡ o
        → (proven_fee ts ser ps bls root o).0 ≡ get_fee_from_state ts ser s alias
    unfolding proven_fee get_fee_from_state decode_value
    proven_fee-eq s alias root none e = sym (
        ap (decoded ts ser) (ps.proof-missing s (build_path_for_set_fees alias) e)
        ∙ unfold decoded in refl)
    proven_fee-eq s alias root (some (nodes, none)) e =
        sym (ap (decoded ts ser) (ps.proof-value s (build_path_for_set_fees alias) nodes none e))
    proven_fee-eq s alias root (some (nodes, some [])) e =
        absurd (ps.value-ne-nil s (build_path_for_set_fees alias) nodes [] e refl)
    proven_fee-eq s alias root (some (nodes, some (c ∷ v))) e = sym (
        ap (decoded ts ser)
          (ps.proof-value s (build_path_for_set_fees alias) nodes (some (c ∷ v)) e))

    get_fee_with_proof-eq :
        (s : ts.State) (alias : Option Text) (is_committed : Bool)
        → (get_fee_with_proof ts ser ps bls s alias is_committed).0
          ≡ get_fee_from_state ts ser (head_of ts ser ps bls s is_committed) alias
    unfolding get_fee_with_proof
    get_fee_with_proof-eq s alias is_committed =
        proven_fee-eq (head_of ts ser ps bls s is_committed) alias _ _ refl

    abbrev fields_with : Text → Text → ℕ → Option FeeValue → Reply (Option FeeValue) bls.MultiSig
    fields_with k identifier req_id answer =
        (identifier_key, identifier_entry identifier)
        ∷ (req_id_key, number_entry req_id)
        ∷ (k, answer_entry answer)
        ∷ []

    -- The field of a reply that has the answer, unless the operation has it too.
    answer_of :
        (k : Text) (o : Option (Proof bls.MultiSig)) (identifier : Text) (req_id : ℕ)
        (answer : Option FeeValue) (op : Operation)
        → text_eq identifier_key k ≡ false
        → text_eq req_id_key k ≡ false
        → text_eq state_proof_key k ≡ false
        → has_key k op ≡ false
        → get k (
            update_operation
              (with_state_proof ts ser ps bls o (fields_with k identifier req_id answer))
              op)
          ≡ some (answer_entry answer)
    unfolding update_operation with_state_proof get
    answer_of k none identifier req_id answer op a b c out =
        get-update_out client_entry k (fields_with k identifier req_id answer) op out
        ∙ rw (a, b, text_eq_refl k) refl
    answer_of k (some pr) identifier req_id answer op a b c out =
        get-update_out client_entry k
          (assign state_proof_key (proof_entry pr) (fields_with k identifier req_id answer)) op out
        ∙ get-assign state_proof_key k (proof_entry pr) (fields_with k identifier req_id answer)
        ∙ rw (c, a, b, text_eq_refl k) refl

    read_fee-eq :
        (s : ts.State) (d : Fees) (a : Text)
        → IsConsistent ts ser s d
        → get_fee_from_state ts ser s none ≡ some (table d)
        → is_empty a ≡ false
        → get_fee_from_state ts ser s (some a) ≡ read_fee a d
    unfolding get_fee_from_state
    read_fee-eq s d a g current named = elim (Bool-cases (text_eq fees_key_for_all a)) [
      | inl shared ↦
          ap (λ k. decoded ts ser (ts.get s k))
            ((build_path_for_set_fees_collides a).1 (inr (sym (text_eq→eq _ _ shared))))
          ∙ current
          ∙ rw shared refl
      | inr other ↦ g.aliases.at a (named, other) ∙ rw other refl
    ]

    -- After SET_FEES of aliases that are not empty on a consistent state, the authorizer reads the
    -- updated table. Once that state is committed `get_fees` gives the table. GET_FEES replies
    -- with it, unless the operation has a field 'fees'; and GET_FEE of an alias that is not
    -- empty returns, and replies, unless the operation has a field 'fee', with the alias's fee of the
    -- table, or for the alias 'fees' with the table itself.
    pub get_fees-set_fees :
        (req d : Fees) (s s' t : ts.State) (identifier : Text) (req_id : ℕ) (op fee_op : Operation)
        (a : Text)
        → AreNamed req
        → IsConsistent ts ser s d
        → set_fees_update_state ts ser req s ≡ ok s'
        → ps.committed t ≡ s'
        → has_key fees_key op ≡ false
        → get alias_key fee_op ≡ some (json_text a)
        → is_empty a ≡ false
        → has_key fee_key fee_op ≡ false
        → (get_fees_from_state ts ser s' ≡ table (update d req))
          × (get_fees ts ser ps bls t true ≡ table (update d req))
          × (get fees_key (get_fees_result ts ser ps bls t identifier req_id op)
              ≡ some (answer_entry (some (table (update d req)))))
          × ((reply : Reply (Option FeeValue) bls.MultiSig) × (get_fee_result ts ser ps bls t
                  identifier req_id fee_op
                ≡ ok reply)
              × (get fee_key reply ≡ some (answer_entry (read_fee a (update d req)))))
    unfolding get_fees_result get_fees_with_proof get_fee_result get_fees text_eq
    get_fees-set_fees req d s s' t identifier req_id op fee_op a named g run same out asked plain
          fee_out =
        let (s1, run1, after) = set_fees_update_state-IsConsistent ts ser req s d named g in
        let written = updated_table req d s s' g.current run in
        let there : get_fee_from_state ts ser (ps.committed t) none ≡ some (table (update d req)) =
          ap (λ x. get_fee_from_state ts ser x none) same ∙ written in
        let consistent = subst (λ x. IsConsistent ts ser x (update d req)) (cc (run, run1)) after in
        let fee =
          get_fee_with_proof-eq t (some a) true
          ∙ ap (λ x. get_fee_from_state ts ser x (some a)) same
          ∙ read_fee-eq s' (update d req) a consistent written plain in
        (
          get_fees_from_state-eq s' ∙ ap or_no_fees written,
          ap or_no_fees there,
          answer_of fees_key _ identifier req_id _ op refl refl refl out
              ∙ ap (λ x. some (answer_entry (some x)))
                  (ap or_no_fees (get_fee_with_proof-eq t none true ∙ there)),
          (
            update_operation
                (with_state_proof ts ser ps bls (get_fee_with_proof ts ser ps bls t (some a) true).1
                  (fields_with fee_key identifier req_id
                    (get_fee_with_proof ts ser ps bls t (some a) true).0))
                fee_op,
            rw (asked, get_fee_result) refl,
            answer_of fee_key _ identifier req_id _ fee_op refl refl refl fee_out
                ∙ ap (λ x. some (answer_entry x)) fee,
          ),
        )
