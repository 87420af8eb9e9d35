-- ===== src/GetUtxo/Reply.antt =====
-- The whole reply to GET_UTXO: the page of outputs, the fields of the request's operation, and the
-- proof of the state if it fits.
use token_plugin.Prelude.{ℕ, zero, suc, Option, none, some, List, [], ◌∷◌, leb, if◌then◌else◌}
use token_plugin.Text.{Text}
use token_plugin.Text.Dict.{get, assign}
use token_plugin.Errors.{Exn, Result, ok, err, ◌>>=◌}
use token_plugin.Amounts.{Output}
use token_plugin.Proofs.{Bls, Proof, signed_proof}
use token_plugin.Replies.{
  Json, json_text, json_number, Operation, identifier_entry, number_entry, answer_entry,
  proof_entry, Reply, identifier_key, req_id_key, state_proof_key, update_operation,
}
use token_plugin.GetUtxo.{Page, get_result}

pub record Query : Type 0 where
  pub identifier : Text
  pub req_id : ℕ
  pub operation : Operation

-- 'address', 'from', 'outputs' and 'next'
abbrev pub address_key : Text
address_key = b'a' ∷ b'd' ∷ b'd' ∷ b'r' ∷ b'e' ∷ b's' ∷ b's' ∷ []

abbrev pub from_key : Text
from_key = b'f' ∷ b'r' ∷ b'o' ∷ b'm' ∷ []

abbrev pub outputs_key : Text
outputs_key = b'o' ∷ b'u' ∷ b't' ∷ b'p' ∷ b'u' ∷ b't' ∷ b's' ∷ []

abbrev pub next_key : Text
next_key = b'n' ∷ b'e' ∷ b'x' ∷ b't' ∷ []

-- `request.operation[ADDRESS]`; the static validation lets through no address but a text.
abbrev pub address_of : Option Json → Result Text
address_of none = err Exn.key_error
address_of (some (json_text a)) = ok a
address_of (some _) = err Exn.type_error

-- `request.operation.get(FROM_SEQNO)`; the static validation lets through nothing but a number.
abbrev pub from_of : Option Json → Result (Option ℕ)
from_of none = ok none
from_of (some (json_number n)) = ok (some n)
from_of (some _) = err Exn.type_error

-- The state of plenum as the handler reads it: the last committed root, and the nodes of a proof with
-- the entries whose keys begin with the address.
pub record ProvenState : Type 1 where
  pub State : Type 0
  pub committed_head_hash : State → Text
  pub proof_for_keys_with_prefix : State → Text → Text × List (Text × Text)
  pub rlp_decode : Text → Text

-- `if next_seqno:`
unfoldable pub shown : Option ℕ → Option ℕ
shown none = none
shown (some zero) = none
shown (some (suc n)) = some (suc n)

unfoldable pub add_next : {M : Type 0} → Option ℕ → Reply (List Output) M → Reply (List Output) M
unfolding assign
add_next none result = result
add_next (some n) result = assign next_key (number_entry n) result

module _ (ps : ProvenState) (bls : Bls) (json_size : Reply (List Output) bls.MultiSig → ℕ)
    (msg_limit : ℕ) where
  -- The operation's fields replace those that are there already.
  unfoldable pub without_proof : Query → Page → Reply (List Output) bls.MultiSig
  unfolding shown update_operation add_next
  without_proof q pg = add_next (shown pg.next_seqno) (
      update_operation
        ((identifier_key, identifier_entry q.identifier)
          ∷ (req_id_key, number_entry q.req_id)
          ∷ (outputs_key, answer_entry pg.outputs)
          ∷ [])
        q.operation)

  -- The proof is added to a copy, which replaces the reply if it is short enough.
  unfoldable pub add_proof :
      Option (Proof bls.MultiSig)
      → Reply (List Output) bls.MultiSig
      → Reply (List Output) bls.MultiSig
  unfolding assign
  add_proof none result = result
  add_proof (some pr) result =
      let res_sub = assign state_proof_key (proof_entry pr) result in
      if leb (json_size res_sub) msg_limit then res_sub else result

  unfoldable pub reply_to : ps.State → Query → Result (Reply (List Output) bls.MultiSig)
  unfolding get_result signed_proof add_proof without_proof get
  reply_to s q = do
    address ← address_of (get address_key q.operation)
    from_seqno ← from_of (get from_key q.operation)
    let found = ps.proof_for_keys_with_prefix s address
    pg ← get_result ps.rlp_decode found.1 from_seqno
    ok (add_proof (signed_proof bls (ps.committed_head_hash s) found.0) (without_proof q pg))
