-- ===== src/Replies.antt =====
-- Replies of the read handlers: dictionaries, into which `result.update(request.operation)` puts the
-- fields of the request's operation.
use token_plugin.Prelude.{ℕ, List, [], ◌∷◌}
use token_plugin.Text.{Text}
use token_plugin.Text.Dict.{update_with}
use token_plugin.Proofs.{Proof}

-- A value that the client sends.
pub data Json : Type 0 where
  json_text : Text → Json
  json_number : ℕ → Json
  json_other : Text → Json

abbrev pub Operation : Type 0
Operation = List (Text × Json)

-- A value of a reply: of the request itself, of its operation, the answer, a number beside it, or the
-- proof of the state.
pub data Entry (A M : Type 0) : Type 0 where
  identifier_entry : Text → Entry A M
  number_entry : ℕ → Entry A M
  client_entry : Json → Entry A M
  answer_entry : A → Entry A M
  proof_entry : Proof M → Entry A M

abbrev pub Reply : Type 0 → Type 0 → Type 0
Reply A M = List (Text × Entry A M)

-- 'identifier', 'reqId' and 'state_proof'
abbrev pub identifier_key : Text
identifier_key = b'i' ∷ b'd' ∷ b'e' ∷ b'n' ∷ b't' ∷ b'i' ∷ b'f' ∷ b'i' ∷ b'e' ∷ b'r' ∷ []

abbrev pub req_id_key : Text
req_id_key = b'r' ∷ b'e' ∷ b'q' ∷ b'I' ∷ b'd' ∷ []

abbrev pub state_proof_key : Text
state_proof_key = b's' ∷ b't' ∷ b'a' ∷ b't' ∷ b'e' ∷ b'_' ∷ b'p' ∷ b'r' ∷ b'o' ∷ b'o' ∷ b'f' ∷ []

-- `result.update(request.operation)`
unfoldable pub update_operation : {A M : Type 0} → Reply A M → Operation → Reply A M
unfolding update_with
update_operation result operation = update_with client_entry result operation
