-- ===== src/Batch/Laws/Charges.antt =====
-- What `apply_request` of `DomainFeeHandler` (domain_fee_handler.py) does to the objects that the
-- batch handlers share: the charge is the step that they expect of it.
use token_plugin.Prelude.{ℕ, suc, ◌≤◌, ◌≡◌, ◌≢◌, refl, ◌∙◌, Bool, true, false, List}
use token_plugin.Text.{Text}
use token_plugin.Errors.{Result, ok, err}
use token_plugin.Storage.{KvStore, TrieState}
use token_plugin.Cache.{Input}
use token_plugin.Token.{Payment, World}
use token_plugin.Token.Writes.{Keeps-seq, Keeps-for_each, spend_input-Keeps, add_new_output-Keeps}
use token_plugin.Xfer.{add_outputs}
use token_plugin.Fees.Authorizer.{calculate_fees_from_req}
use token_plugin.Fees.Domain.{
  PrevResult, FeeTxn, TxnLedger, FeesState, fees_request, update_token_state, add_deducted_fees,
  track, append_fees, apply_request,
}
use token_plugin.Fees.Domain.Charges.{fees_txn}
use token_plugin.Batch.{Mark, Plenum, Node}
use token_plugin.Batch.Laws.{IsPlenum, Pending, InStep, newest}
use token_plugin.Batch.Laws.Steps.{Charged}
use token_plugin.Batch.Laws.Reach.{Charged-InStep}

-- The stores and the ledger that requests change are those that the batch handlers share. A write of
-- a key leaves the batches of the store; the ledger appends one uncommitted transaction, and its
-- earlier roots stay.
pub record Views (kv : KvStore) (ts : TrieState) (tl : TxnLedger) (p : Plenum) (laws : IsPlenum p)
    : Type 0 where
  pub state : ts.State → p.TokenState
  pub cache : kv.Cache → p.UtxoCache
  pub ledger : tl.State → p.TokenLedger
  pub batches-set :
      (c : kv.Cache) (k v : Text) (b : Bool)
      → laws.batches (cache (kv.set c k v b)) ≡ laws.batches (cache c)
  pub size-append :
      (l : tl.State) (t : FeeTxn)
      → p.uncommitted_size (ledger (tl.append l t).1) ≡ suc (p.uncommitted_size (ledger l))
  pub committed-append :
      (l : tl.State) (t : FeeTxn)
      → laws.committed_size (ledger (tl.append l t).1) ≡ laws.committed_size (ledger l)
  pub history-append :
      (l : tl.State) (t : FeeTxn) (j : ℕ)
      → j ≤ p.uncommitted_size (ledger l)
      → laws.history (ledger (tl.append l t).1) j ≡ laws.history (ledger l) j

module _ (kv : KvStore) (ts : TrieState) (tl : TxnLedger) (p : Plenum) (laws : IsPlenum p)
    (views : Views kv ts tl p laws) where
  -- The node whose objects these are.
  abbrev pub node_of : FeesState kv ts tl → p.TokenTracker → Node p
  node_of s t = record {
    token_state = views.state s.world.state;
    token_ledger = views.ledger s.ledger;
    token_tracker = t;
    utxo_cache = views.cache s.world.cache;
    fees_tracker = s.tracker;
  }

  update_token_state-batches :
      (inputs : List Input) (outputs : List Payment) (n : ℕ) (w : World kv ts)
      → laws.batches (views.cache (update_token_state kv ts tl inputs outputs n false w).1.cache)
        ≡ laws.batches (views.cache w.cache)
  unfolding update_token_state add_outputs
  update_token_state-batches inputs outputs n w =
      let P = λ (c : kv.Cache). laws.batches (views.cache c) ≡ laws.batches (views.cache w.cache) in
      let keep =
        λ (c : kv.Cache) (k v : Text) (b : Bool) (h : P c). views.batches-set c k v b ∙ h in
      (Keeps-seq kv ts P keep _ _
          (Keeps-for_each kv ts P keep inputs _
            (λ i. spend_input-Keeps kv ts P keep i.address i.seq_no false true))
          (Keeps-for_each kv ts P keep outputs _
            (λ o. add_new_output-Keeps kv ts P keep _ false))).at
        w refl

  append_fees-Charged :
      (txn_type : Text) (seq_no : ℕ) (txn : FeeTxn) (s : FeesState kv ts tl) (t : p.TokenTracker)
      (m : Mark)
      → let q = append_fees kv ts tl txn_type seq_no txn s in
        q.0 ≡ ok tt
        → p.head_hash (views.state q.1.world.state) ≢ m.state_root
        → p.uncommitted_root_hash (views.ledger q.1.ledger) ≢ m.txn_root
        → Charged p laws (node_of s t) (node_of q.1 t) m
  unfolding append_fees add_deducted_fees
  append_fees-Charged txn_type seq_no txn s t m =
      go
        (update_token_state kv ts tl txn.inputs txn.outputs (tl.append s.ledger txn).0 false
          s.world)
        (update_token_state-batches txn.inputs txn.outputs (tl.append s.ledger txn).0 s.world)
    where
      go :
          (u : Result (Unit {0}) × World kv ts)
          → laws.batches (views.cache u.1.cache) ≡ laws.batches (views.cache s.world.cache)
          → let q =
              track kv ts tl txn_type seq_no txn.fees s.tracker (tl.append s.ledger txn).1 u in
            q.0 ≡ ok tt
            → p.head_hash (views.state q.1.world.state) ≢ m.state_root
            → p.uncommitted_root_hash (views.ledger q.1.ledger) ≢ m.txn_root
            → Charged p laws (node_of s t) (node_of q.1 t) m
      go (err x, w) kept e new_state new_root = cc e
      go (ok x, w) kept e new_state new_root = record {
        same_marks = refl;
        same_batches = kept;
        same_committed = views.committed-append s.ledger txn;
        one_more = views.size-append s.ledger txn;
        counted = refl;
        kept = views.history-append s.ledger txn;
        new_state = new_state;
        new_root = new_root;
      }

  -- From objects that agree, a request with fees that `apply_request` charges without an error, and
  -- that gives the token ledger and the token state new roots, leaves objects that agree on the same
  -- batches: the transaction and the fee are counted for the batch in progress.
  pub apply_request-InStep :
      (ledger_id : ℕ) (txn_type : Text) (prev : PrevResult) (inputs own_inputs : List Input)
      (change own_outputs : List Payment) (signatures : List Text) (s : FeesState kv ts tl)
      (t : p.TokenTracker) (b : Mark) (r : List Pending)
      → InStep p laws (node_of s t) b r
      → let q =
          apply_request kv ts tl ledger_id txn_type prev
            (fees_request inputs change signatures own_inputs own_outputs)
            s in
        q.0 ≡ ok tt
        → p.head_hash (views.state q.1.world.state) ≢ (newest b r).state_root
        → p.uncommitted_root_hash (views.ledger q.1.ledger) ≢ (newest b r).txn_root
        → InStep p laws (node_of q.1 t) b r
  unfolding apply_request calculate_fees_from_req
  apply_request-InStep ledger_id txn_type prev inputs own_inputs change own_outputs signatures s t b
        r h e new_state new_root =
      Charged-InStep p laws (node_of s t) _ b r h (
        append_fees-Charged txn_type prev.seq_no
          (fees_txn kv ts tl ledger_id prev inputs change signatures s.world.cache) s t (newest b r)
          e new_state new_root)
