-- ===== src/Tests/Queries.antt =====
-- Replies to GET_UTXO, GET_FEE and GET_FEES with a signed state.
use token_plugin.Prelude.{
  ℕ, ◌≡◌, ◌≢◌, refl, ap, true, Option, none, some, List, [], ◌∷◌, arith, length,
}
use token_plugin.Text.{Text, text_eq}
use token_plugin.Text.Split.{split}
use token_plugin.Text.Decimal.{int}
use token_plugin.Errors.{ok}
use token_plugin.Amounts.{Output}
use token_plugin.Token.{parse_state_key}
use token_plugin.Proofs.{Bls, signed_proof}
use token_plugin.GetUtxo.{
  collect, add_entry, add_sorted, unpack_two, get_result, page, cut, start_at, utxo_limit,
}
use token_plugin.GetUtxo.Pages.{pages, pages_complete}
use token_plugin.Replies.{
  Operation, json_text, json_other, identifier_entry, number_entry, answer_entry, client_entry,
  proof_entry, Reply, identifier_key, req_id_key, state_proof_key, update_operation,
}
use token_plugin.Text.Dict.{get, assign, has_key, update_with}
use token_plugin.GetUtxo.Reply.{
  Query, ProvenState, shown, add_next, without_proof, add_proof, reply_to, address_key, outputs_key,
}
use token_plugin.GetUtxo.Bounds.{IsPage, Shows, Fits, reply_to-IsPage}
use token_plugin.Fees.SetFees.{FeeValue, table, update, set_fees_update_state}
use token_plugin.Fees.SetFees.Consistent.{set_fees_update_state-IsConsistent}
use token_plugin.Fees.Read.{
  Proving, value_of, get_fees_from_state, get_fees_result, get_fees, get_fee_result, alias_key,
  fee_key, fees_key,
}
use token_plugin.Fees.Read.Current.{read_fee, get_fees-set_fees}
use token_plugin.Tests.Samples.{Dict, ts, alice, empty}
use token_plugin.Tests.FeeTable.{serializer, request, empty-IsConsistent}
use token_plugin.Tests.Requests.{output_at, entries}

pages_complete_example :
    pages 3 1 none (output_at 3 ∷ output_at 7 ∷ []) ≡ output_at 3 ∷ output_at 7 ∷ []
pages_complete_example =
    pages_complete 0 (output_at 3 ∷ output_at 7 ∷ []) ((omega arith, tt), (tt, tt))

abbrev bls : Bls
bls = record { MultiSig = ℕ; root_text = λ r. r; nodes_text = λ n. n; multi_sig = λ r. some 7 }

abbrev trie : ProvenState
trie = record {
  State = List (Text × Text);
  committed_head_hash = λ s. b'r' ∷ [];
  proof_for_keys_with_prefix = λ s address. ([], s);
  rlp_decode = λ v. v;
}

abbrev size : Reply (List Output) ℕ → ℕ
size r = length r

-- The operation has a field of its own beside the address.
abbrev query : Query
query = record {
  identifier = alice;
  req_id = 1;
  operation = (address_key, json_text (b'a' ∷ [])) ∷ (b'x' ∷ [], json_other []) ∷ [];
}

abbrev two_outputs : List Output
two_outputs =
    record { address = b'a' ∷ []; seq_no = 2; amount = some 7 }
    ∷ record { address = b'a' ∷ []; seq_no = 10; amount = some 5 }
    ∷ []

abbrev answer : Reply (List Output) ℕ
answer =
    (identifier_key, identifier_entry alice)
    ∷ (req_id_key, number_entry 1)
    ∷ (outputs_key, answer_entry two_outputs)
    ∷ (address_key, client_entry (json_text (b'a' ∷ [])))
    ∷ (b'x' ∷ [], client_entry (json_other []))
    ∷ (
      state_proof_key,
      proof_entry (record { multi_signature = 7; root_hash = b'r' ∷ []; proof_nodes = [] }),
    )
    ∷ []

answer_runs : reply_to trie bls size 9 entries query ≡ ok answer
unfolding reply_to get_result collect add_entry add_sorted unpack_two parse_state_key split int page
    cut start_at without_proof shown add_proof signed_proof add_next update_operation update_with
    assign get text_eq
answer_runs = refl

reply_to-IsPage_example :
    (address : Text) × (utxos outputs : List Output) × (next : Option ℕ) × (get address_key
        query.operation
      ≡ some (json_text address))
    × (collect (λ v. v) entries [] ≡ ok utxos)
    × IsPage utxo_limit utxos outputs next
    × Shows query.operation outputs next answer
    × Fits trie bls size 9 entries address answer
reply_to-IsPage_example = reply_to-IsPage trie bls size 9 entries query answer answer_runs

abbrev proof_of : Option Text → Option (Text × Option Text)
proof_of none = none
proof_of (some v) = some ([], some (1 ∷ v))

abbrev tail : Text → Text
tail [] = []
tail (c ∷ s) = s

missing : (o : Option Text) → proof_of o ≡ none → o ≡ none
missing none e = refl
missing (some v) e = cc

abbrev value_in : Option (Text × Option Text) → Option Text
value_in none = none
value_in (some (nodes, v)) = v

found :
    (o : Option Text) (nodes : Text) (v : Option Text)
    → proof_of o ≡ some (nodes, v)
    → o ≡ value_of tail v
found none nodes v e = cc
found (some x) nodes none e = cc
found (some x) nodes (some v) e = ap (λ p. value_of tail (value_in p)) e

one_ne : (x v : Text) → some (1 ∷ x) ≡ some v → v ≢ []
one_ne x v e h = cc

never_empty : (o : Option Text) (nodes v : Text) → proof_of o ≡ some (nodes, some v) → v ≢ []
never_empty none nodes v e = cc
never_empty (some x) nodes v e = λ h. absurd (one_ne x v (ap value_in e) h)

abbrev proving : Proving ts
proving = record {
  committed = λ s. s;
  root_hash = λ s. b'r' ∷ [];
  generate_state_proof = λ s k. proof_of (ts.get s k);
  get_decoded = tail;
  proof-missing = λ s k e. missing (ts.get s k) e;
  proof-value = λ s k nodes v e. found (ts.get s k) nodes v e;
  value-ne-nil = λ s k nodes v e. never_empty (ts.get s k) nodes v e;
}

updated : (s' : Dict) × (set_fees_update_state ts serializer request empty ≡ ok s')
updated =
    let (s', run, after) =
      set_fees_update_state-IsConsistent ts serializer request empty [] (refl, (refl, (refl, tt)))
        empty-IsConsistent in
    (s', run)

abbrev fee_operation : Operation
fee_operation = (alias_key, json_text alice) ∷ []

asked : get alias_key fee_operation ≡ some (json_text alice)
unfolding get text_eq
asked = refl

get_fees-set_fees_example :
    (get_fees_from_state ts serializer updated.0 ≡ table (update [] request))
    × (get_fees ts serializer proving bls updated.0 true ≡ table (update [] request))
    × (get fees_key (get_fees_result ts serializer proving bls updated.0 alice 1 [])
        ≡ some (answer_entry (some (table (update [] request)))))
    × ((reply : Reply (Option FeeValue) ℕ) × (get_fee_result ts serializer proving bls updated.0
            alice 1 fee_operation
          ≡ ok reply)
        × (get fee_key reply ≡ some (answer_entry (read_fee alice (update [] request)))))
unfolding has_key text_eq
get_fees-set_fees_example =
    get_fees-set_fees ts serializer proving bls request [] empty updated.0 updated.0 alice 1 []
      fee_operation alice (refl, (refl, (refl, tt))) empty-IsConsistent updated.1 refl refl asked
      refl refl
