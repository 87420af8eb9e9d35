-- ===== src/Fees/Domain/Charges.antt =====
-- A request on the domain ledger that the authorizer accepts is charged exactly its fees.
use mathlib.Core.Path.{subst}
use token_plugin.Prelude.{
  ℕ, suc, ◌+◌, ◌≡◌, refl, Bool, true, false, Option, some, List, [], ◌∷◌, arith, Bool-cases, inl,
  inr,
}
use token_plugin.Text.{Text, text_eq, text_eq_refl}
use token_plugin.Errors.{Result, ok, err}
use token_plugin.Storage.{KvStore, TrieState}
use token_plugin.Cache.{Input, sum_inputs}
use token_plugin.Cache.Refines.{Holds}
use token_plugin.Cache.Sums.{sum_inputs-Sums}
use token_plugin.Ledger.{Ledger, owed, AreDistinct, Sums}
use token_plugin.Ledger.Supply.{supply, AreUnique}
use token_plugin.Ledger.Transaction.{transfer}
use token_plugin.Ledger.Transfer.{CoversInputs, CoversOutputs, transfer_total}
use token_plugin.Token.{Payment, World, sum_outputs}
use token_plugin.Token.Simulates.{
  Simulates, Simulates-seq, Simulates-for_each, spend_input-Simulates,
}
use token_plugin.Xfer.Conserves.{add_outputs-Simulates, follows_ok}
use token_plugin.Fees.Authorizer.{
  accepted, fees_get, authorize, calculated, calculate_fees_from_req,
}
use token_plugin.Fees.Authorizer.Decides.{authorize_iff}
use token_plugin.Text.Dict.{assign, has_key}
use token_plugin.Fees.Domain.{
  add_deducted_fees, has_deducted_fees, PrevResult, FeeTxn, TxnLedger, FeesState, fees_request,
  sigs_by_address, get_ref_for_txn_fees, update_token_state, track, append_fees, apply_request,
}

has_key-assign {ℓ} :
    {A : Type ℓ} (k : Text) (x : A) (d : List (Text × A)) → has_key k (assign k x d) ≡ true
unfolding has_key assign
has_key-assign k x [] = rw (text_eq_refl k) refl
has_key-assign k x ((j, y) ∷ d) = elim (Bool-cases (text_eq j k)) [
  | inl same ↦ rw same (rw same refl)
  | inr differs ↦ rw differs (rw differs (has_key-assign k x d))
]

module _ (kv : KvStore) (ts : TrieState) (tl : TxnLedger) where
  pub update_token_state-Simulates :
      (inputs : List Input) (outputs : List Payment) (n : ℕ) (b : Bool)
      → Simulates kv ts b
          (update_token_state kv ts tl inputs outputs n b)
          (transfer inputs outputs n)
  unfolding update_token_state transfer
  update_token_state-Simulates inputs outputs n b =
      Simulates-seq kv ts b _ _ _ _
        (Simulates-for_each kv ts b inputs _ _
          (λ i. spend_input-Simulates kv ts b i.address i.seq_no true))
        (add_outputs-Simulates kv ts outputs n b)

  -- What a charge leaves: the specification's ledger in the cache, the counter raised, and the fees
  -- noted for the transaction.
  pub record Charged (s s' : FeesState kv ts tl) (txn_type : Text) (seq_no : ℕ) (v : Ledger)
      : Type 0 where
    pub held : Holds kv s'.world.cache false v
    pub counted : s'.tracker.fees_in_current_batch ≡ suc s.tracker.fees_in_current_batch
    pub noted : has_deducted_fees s'.tracker txn_type seq_no ≡ true

  append_fees-Charged :
      (txn_type : Text) (seq_no : ℕ) (txn : FeeTxn) (s : FeesState kv ts tl) (v : Ledger)
      → let p =
          update_token_state kv ts tl txn.inputs txn.outputs
            (tl.append s.ledger txn).0
            false
            s.world in
        p.0 ≡ ok tt
        → Holds kv p.1.cache false v
        → let q = append_fees kv ts tl txn_type seq_no txn s in
          (q.0 ≡ ok tt)
          × Charged s q.1 txn_type seq_no v
          × (q.1.ledger ≡ (tl.append s.ledger txn).1)
  unfolding append_fees
  append_fees-Charged txn_type seq_no txn s v =
      go (
        update_token_state kv ts tl txn.inputs txn.outputs (tl.append s.ledger txn).0 false s.world)
    where
      go :
          (p : Result (Unit {0}) × World kv ts)
          → p.0 ≡ ok tt
          → Holds kv p.1.cache false v
          → let q =
              track kv ts tl txn_type seq_no txn.fees s.tracker (tl.append s.ledger txn).1 p in
            (q.0 ≡ ok tt)
            × Charged s q.1 txn_type seq_no v
            × (q.1.ledger ≡ (tl.append s.ledger txn).1)
      go (ok x, w) e h = (
        refl,
        record {
          held = h;
          counted = unfold add_deducted_fees in refl;
          noted = unfold has_deducted_fees add_deducted_fees in has_key-assign _ _ _;
        },
        refl,
      )
      go (err x, w) e h = cc e

  -- The transaction of the fees of a request.
  abbrev pub fees_txn : ℕ → PrevResult → List Input → List Payment → List Text → kv.Cache → FeeTxn
  fees_txn ledger_id prev inputs change sigs c = record {
    inputs = inputs;
    outputs = change;
    ref = get_ref_for_txn_fees ledger_id prev.seq_no;
    fees = calculated kv change (sum_inputs kv c inputs false);
    sigs = sigs_by_address inputs sigs [];
    req_id = prev.req_id;
    protocol_version = 2;
    txn_time = prev.txn_time;
  }

  -- The inputs of fees that the authorizer accepts are unspent, and worth the change and the fees.
  pub fees_request-owed :
      (fees : List (Text × ℕ)) (alias : Option Text) (inputs own_inputs : List Input)
      (change own_outputs : List Payment) (sigs : List Text) (c : kv.Cache) (v : Ledger)
      → Holds kv c false v
      → AreDistinct inputs
      → authorize kv c fees alias (fees_request inputs change sigs own_inputs own_outputs)
        ≡ ok accepted
      → owed v inputs ≡ some (sum_outputs change + fees_get fees alias)
  fees_request-owed fees alias inputs own_inputs change own_outputs sigs c v h d e =
      subst (λ x. Sums x (owed v inputs))
        ((authorize_iff kv c fees alias (fees_request inputs change sigs own_inputs own_outputs)).0
          e)
        (sum_inputs-Sums kv c false v h inputs d)

  -- A charge changes the token state and the cache by its transaction, and else not.
  pub apply_request-world :
      (ledger_id : ℕ) (txn_type : Text) (prev : PrevResult) (inputs own_inputs : List Input)
      (change own_outputs : List Payment) (sigs : List Text) (s : FeesState kv ts tl)
      → (apply_request kv ts tl ledger_id txn_type prev
          (fees_request inputs change sigs own_inputs own_outputs)
          s).1.world
        ≡ (update_token_state kv ts tl inputs change
            (tl.append s.ledger (fees_txn ledger_id prev inputs change sigs s.world.cache)).0
            false
            s.world).1
  unfolding apply_request append_fees calculate_fees_from_req
  apply_request-world ledger_id txn_type prev inputs own_inputs change own_outputs sigs s =
      go (update_token_state kv ts tl inputs change (tl.append s.ledger txn).0 false s.world)
    where
      txn : FeeTxn
      txn = fees_txn ledger_id prev inputs change sigs s.world.cache

      go :
          (p : Result (Unit {0}) × World kv ts)
          → (track kv ts tl txn_type prev.seq_no txn.fees s.tracker
              (tl.append s.ledger txn).1
              p).1.world
            ≡ p.1
      go (ok x, w) = refl
      go (err e, w) = refl

  module _ (addrs : List Text) (unique : AreUnique addrs) where
    -- From a cache that holds a ledger, a request with fees, other than a transfer, that the
    -- authorizer accepts and whose fees name no input twice is applied; any list of different
    -- addresses that has the parties of the fees then holds less by just the amount that is due, the
    -- batch has one fees transaction more, the fees are noted for the request's transaction, and the
    -- token ledger has the fees transaction with the request's number and time.
    pub apply_request_charges :
        (fees : List (Text × ℕ)) (alias : Option Text) (ledger_id : ℕ) (txn_type : Text)
        (prev : PrevResult) (inputs own_inputs : List Input) (change own_outputs : List Payment)
        (sigs : List Text) (s : FeesState kv ts tl) (v : Ledger)
        → Holds kv s.world.cache false v
        → CoversInputs addrs inputs
        → CoversOutputs addrs change
        → AreDistinct inputs
        → let r = fees_request inputs change sigs own_inputs own_outputs in
          authorize kv s.world.cache fees alias r ≡ ok accepted
          → let q = apply_request kv ts tl ledger_id txn_type prev r s in
            (v' : Ledger) × (q.0 ≡ ok tt)
            × Charged s q.1 txn_type prev.seq_no v'
            × (q.1.ledger
                ≡ (tl.append s.ledger (fees_txn ledger_id prev inputs change sigs s.world.cache)).1)
            × (supply addrs v' + fees_get fees alias ≡ supply addrs v)
    unfolding apply_request calculate_fees_from_req
    apply_request_charges fees alias ledger_id txn_type prev inputs own_inputs change own_outputs
          sigs s v h ci co d e =
        let due = fees_get fees alias in
        let owe =
          fees_request-owed fees alias inputs own_inputs change own_outputs sigs s.world.cache v h d
            e in
        let txn = fees_txn ledger_id prev inputs change sigs s.world.cache in
        let n = (tl.append s.ledger txn).0 in
        let (v', done, moved) =
          transfer_total addrs unique v inputs change n (sum_outputs change + due) ci co d owe in
        let (returned, held) =
          follows_ok kv ts false _ _ s.world v v'
            (update_token_state-Simulates inputs change n false) h done in
        let (applied, charged, appended) =
          append_fees-Charged txn_type prev.seq_no txn s v' returned held in
        (v', applied, charged, appended, omega (arith, moved))
