-- ===== src/GetUtxo/Bounds.antt =====
-- How large a reply to GET_UTXO is, and what it holds.
use mathlib.Core.Path.{subst}
use token_plugin.Prelude.{
  ℕ, zero, suc, ◌≤◌, ◌≡◌, ◌≢◌, false, true, refl, ap, ◌∙◌, Option, none, some, List, [], ◌∷◌, ◌++◌,
  append-nil, arith, leb, ltb, length, take, drop, take-drop, Bool-cases, inl, inr,
}
use token_plugin.Text.{Text, text_eq, text_eq_refl}
use token_plugin.Text.Dict.{get, assign, has_key, get-assign, get-update_out, get-update_in}
use token_plugin.Errors.{ok, >>=-eq-ok}
use token_plugin.Amounts.{Output}
use token_plugin.Proofs.{Bls, Proof, signed_proof}
use token_plugin.Replies.{
  Json, json_text, json_number, json_other, Operation, identifier_entry, number_entry, answer_entry,
  client_entry, proof_entry, Reply, identifier_key, req_id_key, state_proof_key, update_operation,
}
use token_plugin.GetUtxo.{
  collect, Page, page, cut, start_at, drop_to, find_from, utxo_limit, get_result,
}
use token_plugin.GetUtxo.Reply.{
  Query, ProvenState, shown, add_next, without_proof, add_proof, reply_to, address_key, from_key,
  outputs_key, next_key, address_of, from_of,
}

length-take : (k : ℕ) (xs : List Output) → k ≤ length xs → length (take k xs) ≡ k
length-take zero xs h = refl
length-take (suc k) [] h = absurd (omega (arith, h))
length-take (suc k) (x ∷ xs) h = ap suc (length-take k xs (omega (arith, h)))

drop_to-IsEnd :
    (i : Option ℕ) (utxos : List Output)
    → (before : List Output) × (before ++ drop_to i utxos ≡ utxos)
unfolding drop_to
drop_to-IsEnd none utxos = (utxos, append-nil utxos)
drop_to-IsEnd (some zero) utxos = (utxos, append-nil utxos)
drop_to-IsEnd (some (suc i)) utxos = (take (suc i) utxos, take-drop (suc i) utxos)

start_at-IsEnd :
    (from_seqno : Option ℕ) (utxos : List Output)
    → (before : List Output) × (before ++ start_at from_seqno utxos ≡ utxos)
unfolding start_at
start_at-IsEnd none utxos = ([], refl)
start_at-IsEnd (some zero) utxos = ([], refl)
start_at-IsEnd (some (suc n)) utxos = drop_to-IsEnd (find_from (suc n) utxos) utxos

-- A page of at most so many outputs, and full if there is a next number.
pub record IsPage (limit : ℕ) (utxos : List Output) (outputs : List Output) (next : Option ℕ)
    : Type 0 where
  pub before : List Output
  pub after : List Output
  pub stretch : before ++ (outputs ++ after) ≡ utxos
  pub bounded : length outputs ≤ limit
  pub full : (m : ℕ) → next ≡ some m → length outputs ≡ limit

cut-IsPage :
    (limit : ℕ) (before utxos rest : List Output)
    → before ++ rest ≡ utxos
    → IsPage limit utxos (cut limit rest).outputs (cut limit rest).next_seqno
unfolding cut
cut-IsPage limit before utxos rest h = elim (Bool-cases (ltb limit (length rest))) [
  | inl long ↦
      let many : length (take limit rest) ≡ limit = length-take limit rest (ground (arith, long)) in
      rw long (record {
        before = before;
        after = drop limit rest;
        stretch = ap (λ l. before ++ l) (take-drop limit rest) ∙ h;
        bounded = omega (arith, many);
        full = λ m e. many;
      })
  | inr short ↦ rw short (record {
    before = before;
    after = [];
    stretch = ap (λ l. before ++ l) (append-nil rest) ∙ h;
    bounded = ground (arith, short);
    full = λ m e. cc;
  })
]

page-IsPage :
    (limit : ℕ) (from_seqno : Option ℕ) (utxos : List Output)
    → IsPage limit utxos
        (page limit from_seqno utxos).outputs
        (page limit from_seqno utxos).next_seqno
unfolding page
page-IsPage limit from_seqno utxos =
    let (before, h) = start_at-IsEnd from_seqno utxos in
    cut-IsPage limit before utxos (start_at from_seqno utxos) h

shown-eq-some : (o : Option ℕ) (m : ℕ) → shown o ≡ some m → o ≡ some m
unfolding shown
shown-eq-some none m e = e
shown-eq-some (some zero) m e = cc
shown-eq-some (some (suc n)) m e = e

shown-IsPage :
    (limit : ℕ) (utxos outputs : List Output) (next : Option ℕ)
    → IsPage limit utxos outputs next
    → IsPage limit utxos outputs (shown next)
shown-IsPage limit utxos outputs next p = record {
  before = p.before;
  after = p.after;
  stretch = p.stretch;
  bounded = p.bounded;
  full = λ m e. p.full m (shown-eq-some next m e);
}

-- What the reply has of the page: its outputs and its next number. Of the operation's fields,
-- 'outputs' replaces the outputs, and 'next' stays if there is no next number.
pub record Shows {M : Type 0} (op : Operation) (outputs : List Output) (next : Option ℕ)
    (reply : Reply (List Output) M) : Type 0 where
  pub answered :
      has_key outputs_key op ≡ false → get outputs_key reply ≡ some (answer_entry outputs)
  pub replaced :
      has_key outputs_key op ≡ true → (j : Json) × (get outputs_key reply ≡ some (client_entry j))
  pub continued : (n : ℕ) → next ≡ some n → get next_key reply ≡ some (number_entry n)
  pub last : next ≡ none → has_key next_key op ≡ false → get next_key reply ≡ none

-- A field that the next number leaves as it is.
get-add_next :
    {M : Type 0} (next : Option ℕ) (j : Text) (r : Reply (List Output) M)
    → text_eq next_key j ≡ false
    → get j (add_next next r) ≡ get j r
unfolding add_next
get-add_next none j r other = refl
get-add_next (some n) j r other = get-assign next_key j (number_entry n) r ∙ rw other refl

module _ (ps : ProvenState) (bls : Bls) (json_size : Reply (List Output) bls.MultiSig → ℕ)
    (msg_limit : ℕ) where
  -- A proof that a reply has is the signed one of the last committed root, and the reply fits with it.
  abbrev pub Fits : ps.State → Text → Reply (List Output) bls.MultiSig → Type 0
  Fits s address reply =
      (pr : Proof bls.MultiSig)
      → get state_proof_key reply ≡ some (proof_entry pr)
      → (json_size reply ≤ msg_limit)
        × (signed_proof bls (ps.committed_head_hash s) (ps.proof_for_keys_with_prefix s address).0
            ≡ some pr)

  -- The fields of the request and the page, which the operation's fields go into.
  abbrev page_fields : Query → Page → Reply (List Output) bls.MultiSig
  page_fields q pg =
      (identifier_key, identifier_entry q.identifier)
      ∷ (req_id_key, number_entry q.req_id)
      ∷ (outputs_key, answer_entry pg.outputs)
      ∷ []

  without_proof-Shows :
      (q : Query) (pg : Page)
      → Shows q.operation pg.outputs
          (shown pg.next_seqno)
          (without_proof ps bls json_size msg_limit q pg)
  unfolding without_proof update_operation text_eq get
  without_proof-Shows q pg = record {
    answered = λ out.
        get-add_next (shown pg.next_seqno) outputs_key _ refl
        ∙ get-update_out client_entry outputs_key (page_fields q pg) q.operation out;
    replaced = λ there.
        let (j, e) = get-update_in client_entry outputs_key (page_fields q pg) q.operation there in
        (j, get-add_next (shown pg.next_seqno) outputs_key _ refl ∙ e);
    continued = λ n e.
        rw (e, add_next)
          (get-assign next_key next_key (number_entry n)
            (update_operation (page_fields q pg) q.operation));
    last = λ e out.
        rw (e, add_next) (get-update_out client_entry next_key (page_fields q pg) q.operation out);
  }

  -- Before the proof is added there is none.
  unproven :
      (q : Query) (pg : Page) (pr : Proof bls.MultiSig)
      → get state_proof_key (without_proof ps bls json_size msg_limit q pg) ≢ some (proof_entry pr)
  unfolding without_proof update_operation text_eq get
  unproven q pg pr e =
      let same =
        get-add_next (shown pg.next_seqno) state_proof_key
          (update_operation (page_fields q pg) q.operation) refl in
      elim (Bool-cases (has_key state_proof_key q.operation)) [
        | inl there ↦
            let (j, sent) =
              get-update_in client_entry state_proof_key (page_fields q pg) q.operation there in
            cc (same, sent, e)
        | inr out ↦ cc (
          same,
          get-update_out client_entry state_proof_key (page_fields q pg) q.operation out,
          e,
        )
      ]

  add_proof_parts :
      (o : Option (Proof bls.MultiSig)) (r : Reply (List Output) bls.MultiSig)
      → ((pr : Proof bls.MultiSig) → get state_proof_key r ≢ some (proof_entry pr))
      → ((j : Text)
          → text_eq state_proof_key j ≡ false
          → get j (add_proof ps bls json_size msg_limit o r) ≡ get j r)
        × ((pr : Proof bls.MultiSig)
            → get state_proof_key (add_proof ps bls json_size msg_limit o r) ≡ some (proof_entry pr)
            → (json_size (add_proof ps bls json_size msg_limit o r) ≤ msg_limit) × (o ≡ some pr))
  unfolding add_proof
  add_proof_parts none r bare = (λ j other. refl, λ pr e. absurd (bare pr e))
  add_proof_parts (some x) r bare =
      elim (Bool-cases (leb (json_size (assign state_proof_key (proof_entry x) r)) msg_limit)) [
        | inl fits ↦ rw fits (
          λ j other. get-assign state_proof_key j (proof_entry x) r ∙ rw other refl,
          λ pr e.
              let there = get-assign state_proof_key state_proof_key (proof_entry x) r in
              let own = text_eq_refl state_proof_key in
              (ground (arith, fits), cc (rw own at there, e)),
        )
        | inr long ↦ rw long (λ j other. refl, λ pr e. absurd (bare pr e))
      ]

  add_proof-Shows :
      (o : Option (Proof bls.MultiSig)) (q : Query) (pg : Page)
      → Shows q.operation pg.outputs
          (shown pg.next_seqno)
          (add_proof ps bls json_size msg_limit o (without_proof ps bls json_size msg_limit q pg))
  unfolding text_eq
  add_proof-Shows o q pg =
      let whole = without_proof-Shows q pg in
      let kept =
        (add_proof_parts o (without_proof ps bls json_size msg_limit q pg) (unproven q pg)).0 in
      record {
        answered = λ out. kept outputs_key refl ∙ whole.answered out;
        replaced = λ there. let (j, e) = whole.replaced there in (j, kept outputs_key refl ∙ e);
        continued = λ n e. kept next_key refl ∙ whole.continued n e;
        last = λ e out. kept next_key refl ∙ whole.last e out;
      }

  address_of-ok : (o : Option Json) (a : Text) → address_of o ≡ ok a → o ≡ some (json_text a)
  address_of-ok none a e = cc e
  address_of-ok (some (json_text b)) a e = cc e
  address_of-ok (some (json_number n)) a e = cc e
  address_of-ok (some (json_other t)) a e = cc e

  -- If GET_UTXO returns, its request has an address, and there is a page of the outputs that were
  -- collected from the state for the address: a stretch of at most 1000, and just so many if there is
  -- a next number. The reply has the page's outputs, unless the operation has a field 'outputs', which
  -- replaces them, and the next number; without one it has none, unless the operation has a field
  -- 'next'. A proof that is made for the reply is the signed one of the last committed root for the
  -- address, and the reply with it is no longer than a message may be.
  pub reply_to-IsPage :
      (s : ps.State) (q : Query) (reply : Reply (List Output) bls.MultiSig)
      → reply_to ps bls json_size msg_limit s q ≡ ok reply
      → (address : Text) × (utxos outputs : List Output) × (next : Option ℕ) × (get address_key
            q.operation
          ≡ some (json_text address))
        × (collect ps.rlp_decode (ps.proof_for_keys_with_prefix s address).1 [] ≡ ok utxos)
        × IsPage utxo_limit utxos outputs next
        × Shows q.operation outputs next reply
        × Fits s address reply
  unfolding reply_to get_result
  reply_to-IsPage s q reply run =
      let (address, there, run) = >>=-eq-ok (address_of (get address_key q.operation)) _ run in
      let (from_seqno, given, run) = >>=-eq-ok (from_of (get from_key q.operation)) _ run in
      let (pg, paged, added) =
        >>=-eq-ok (get_result ps.rlp_decode (ps.proof_for_keys_with_prefix s address).1 from_seqno)
          _ run in
      let (utxos, collected, cut) =
        >>=-eq-ok (collect ps.rlp_decode (ps.proof_for_keys_with_prefix s address).1 []) _ paged in
      let o =
        signed_proof bls (ps.committed_head_hash s) (ps.proof_for_keys_with_prefix s address).0 in
      let whole : IsPage utxo_limit utxos pg.outputs (shown pg.next_seqno) =
        subst (λ (x : Page). IsPage utxo_limit utxos x.outputs (shown x.next_seqno)) (cc cut)
          (shown-IsPage utxo_limit utxos _ _ (page-IsPage utxo_limit from_seqno utxos)) in
      (
        address,
        utxos,
        pg.outputs,
        shown pg.next_seqno,
        address_of-ok _ address there,
        collected,
        whole,
        subst (Shows q.operation pg.outputs (shown pg.next_seqno)) (cc added)
            (add_proof-Shows o q pg),
        subst (Fits s address) (cc added)
            (add_proof_parts o (without_proof ps bls json_size msg_limit q pg) (unproven q pg)).1,
      )
