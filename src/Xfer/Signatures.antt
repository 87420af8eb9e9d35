-- ===== src/Xfer/Signatures.antt =====
-- The signatures of a transfer in its transaction: `_req_to_txn` of
-- sovtoken/sovtoken/request_handlers/write_request_handler/xfer_handler.py. The transaction that
-- plenum makes of the request and plenum's `add_sigs_to_txn` are an interface.
use token_plugin.Prelude.{
  ◌≡◌, refl, ap, sym, ◌∙◌, Option, none, some, List, [], ◌∷◌, ◌++◌, arith, length,
}
use token_plugin.Text.{Text}
use token_plugin.Errors.{Exn, Result, ok, err}
use token_plugin.Errors.Exec.{Exec}
use token_plugin.Cache.{Input}
use token_plugin.Xfer.{Payload}

-- 'ED25519'
abbrev pub ed25519 : Text
ed25519 = b'E' ∷ b'D' ∷ b'2' ∷ b'5' ∷ b'5' ∷ b'1' ∷ b'9' ∷ []

-- The operation of a request; `none` is a key that is not there.
pub record Operation : Type 0 where
  pub payload : Payload
  pub signatures : Option (List Text)

-- `WriteRequestHandler._req_to_txn` and `add_sigs_to_txn` of plenum, whose transactions have pairs of
-- a signer and a signature.
pub record PlenumTxn : Type 1 where
  pub Txn : Type 0
  pub base_req_to_txn : Operation → Result Txn
  pub values : Txn → List (Text × Text)
  pub add_sigs_to_txn : Txn → List (Text × Text) → Text → Txn

-- The pairs are added after those that are there.
pub record IsPlenumTxn (p : PlenumTxn) : Type 0 where
  pub values-add_sigs_to_txn :
      (txn : p.Txn) (sigs : List (Text × Text)) (sig_type : Text)
      → p.values (p.add_sigs_to_txn txn sigs sig_type) ≡ p.values txn ++ sigs

-- `[(i["address"], s) for i, s in zip(inputs, sigs)]`
unfoldable pub zip_addresses : List Input → List Text → List (Text × Text)
zip_addresses [] sigs = []
zip_addresses (i ∷ is) [] = []
zip_addresses (i ∷ is) (s ∷ sigs) = (i.address, s) ∷ zip_addresses is sigs

-- The signatures are taken out of the request for plenum's part, and put back.
unfoldable pub req_to_txn : (p : PlenumTxn) → Exec Operation p.Txn
unfolding zip_addresses
req_to_txn p op = elim op.signatures [
  | none ↦ (err Exn.key_error, op)
  | some sigs ↦
      let bare = record op { signatures = none } in
      elim (p.base_req_to_txn bare) [
        | err e ↦ (err e, bare)
        | ok txn ↦ (
          ok (p.add_sigs_to_txn txn (zip_addresses op.payload.inputs sigs) ed25519),
          record bare { signatures = some sigs },
        )
      ]
]

-- The parts of signatures.
abbrev pub signers : List (Text × Text) → List Text
signers [] = []
signers ((a, s) ∷ l) = a ∷ signers l

abbrev pub signed_with : List (Text × Text) → List Text
signed_with [] = []
signed_with ((a, s) ∷ l) = s ∷ signed_with l

abbrev pub input_addresses : List Input → List Text
input_addresses [] = []
input_addresses (i ∷ is) = i.address ∷ input_addresses is

zip_parts :
    (is : List Input) (sigs : List Text)
    → length sigs ≡ length is
    → (signers (zip_addresses is sigs) ≡ input_addresses is)
      × (signed_with (zip_addresses is sigs) ≡ sigs)
unfolding zip_addresses
zip_parts [] [] h = (refl, refl)
zip_parts [] (s ∷ sigs) h = absurd (omega (arith, h))
zip_parts (i ∷ is) [] h = absurd (omega (arith, h))
zip_parts (i ∷ is) (s ∷ sigs) h =
    let (from, with) = zip_parts is sigs (omega (arith, h)) in
    (ap (λ l. i.address ∷ l) from, ap (λ l. s ∷ l) with)

-- Of a request with as many signatures as inputs, of which without them plenum makes a transaction
-- that has no signatures: the request is as before, and the transaction is signed by the addresses
-- of the inputs with the signatures of the request, both in their order.
pub req_to_txn-zip_addresses :
    (p : PlenumTxn)
    → IsPlenumTxn p
    → (op : Operation) (sigs : List Text) (txn : p.Txn) → op.signatures ≡ some sigs
    → length sigs ≡ length op.payload.inputs
    → p.base_req_to_txn (record op { signatures = none }) ≡ ok txn
    → p.values txn ≡ []
    → (txn' : p.Txn) × (req_to_txn p op ≡ (ok txn', op))
      × (signers (p.values txn') ≡ input_addresses op.payload.inputs)
      × (signed_with (p.values txn') ≡ sigs)
unfolding req_to_txn
req_to_txn-zip_addresses p laws op sigs txn signed many made bare =
    let (from, with) = zip_parts op.payload.inputs sigs many in
    let signed_txn = p.add_sigs_to_txn txn (zip_addresses op.payload.inputs sigs) ed25519 in
    let run : req_to_txn p op ≡ (ok signed_txn, record op { signatures = some sigs }) =
      rw (signed, req_to_txn) (rw made refl) in
    let there : p.values signed_txn ≡ zip_addresses op.payload.inputs sigs =
      laws.values-add_sigs_to_txn txn (zip_addresses op.payload.inputs sigs) ed25519
      ∙ ap (λ l. l ++ zip_addresses op.payload.inputs sigs) bare in
    (
      signed_txn,
      run ∙ ap (λ x. (Result.ok signed_txn, record op { signatures = x })) (sym signed),
      ap signers there ∙ from,
      ap signed_with there ∙ with,
    )
