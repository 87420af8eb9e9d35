-- ===== src/Proofs.antt =====
-- The proofs of the state that replies carry: plenum's serializers, its store of multi-signatures and
-- the dictionary that the read handlers build of them.
use token_plugin.Prelude.{Option, none, some}
use token_plugin.Text.{Text}

-- `state_roots_serializer`, `proof_nodes_serializer` and the BLS store; a multi-signature is as
-- `as_dict` gives it.
pub record Bls : Type 1 where
  pub MultiSig : Type 0
  pub root_text : Text → Text
  pub nodes_text : Text → Text
  pub multi_sig : Text → Option MultiSig

pub record Proof (M : Type 0) : Type 0 where
  pub multi_signature : M
  pub root_hash : Text
  pub proof_nodes : Text

-- Of a root and the nodes; `none` is the empty dictionary.
unfoldable pub signed_proof : (b : Bls) → Text → Text → Option (Proof b.MultiSig)
signed_proof b root_hash proof = elim (b.multi_sig (b.root_text root_hash)) [
  | none ↦ none
  | some m ↦ some (record {
    multi_signature = m;
    root_hash = b.root_text root_hash;
    proof_nodes = b.nodes_text proof;
  })
]
