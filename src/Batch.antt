-- ===== src/Batch.antt =====
-- The batch handlers of the token ledger and of the fees: sovtoken's utxo_batch_handler.py and
-- token_batch_handler.py under sovtoken/sovtoken/request_handlers/batch_req_handler, sovtokenfees'
-- fee_batch_handler.py and tracker_batch_handler.py under
-- sovtokenfees/sovtokenfees/req_handlers/batch_handlers, and `commit_to_utxo_cache` of token_utils.py.
-- The state, the ledger, the tracker of uncommitted batches and the batches of the key-value store
-- are plenum's: an interface of operations.
pub mod TrackerHandler
pub mod Reply
pub mod UtxoHandler
pub mod FeeHandler
pub mod Wiring
pub mod Laws
use token_plugin.Prelude.{
  ℕ, suc, Bool, true, false, ◌||◌, Option, none, some, List, [], ◌∷◌, ◌==◌, ltb, if◌then◌else◌,
  length, get_elem?, contains, map,
}
use token_plugin.Text.{Text, text_eq}
use token_plugin.Errors.{Exn, Result, ok, err, ◌>>=◌, ◌>>◌, raise_if, or_raise}
use token_plugin.Errors.Exec.{Exec}
use token_plugin.Fees.Domain.{Tracker, has_deducted_fees}

-- What `LedgerUncommittedTracker` notes of a batch: both roots and the size of the ledger after it.
pub record Mark : Type 0 where
  pub state_root : Text
  pub txn_root : Text
  pub size : ℕ

-- What `reject_batch` and `commit_batch` of the tracker return.
pub record Tracked : Type 0 where
  pub state_root : Text
  pub txn_root : Text
  pub txn_count : ℕ

pub record Plenum : Type 1 where
  pub TokenState : Type 0
  pub TokenLedger : Type 0
  pub TokenTracker : Type 0
  pub UtxoCache : Type 0
  pub Txn : Type 0
  pub head_hash : TokenState → Text
  pub committed_head_hash : TokenState → Text
  pub revert_to_head : TokenState → Text → TokenState
  pub uncommitted_root_hash : TokenLedger → Text
  pub uncommitted_size : TokenLedger → ℕ
  pub ledger_size : TokenLedger → ℕ
  pub discard_txns : TokenLedger → ℕ → TokenLedger
  pub new_tracker : Mark → TokenTracker
  pub set_last_committed : TokenTracker → Mark → TokenTracker
  pub track : TokenTracker → Mark → TokenTracker
  pub untrack : TokenTracker → Result (Tracked × TokenTracker)
  pub track_commit : TokenTracker → Result (Tracked × TokenTracker)
  pub create_batch_from_current : UtxoCache → Text → UtxoCache
  pub reject_batch : UtxoCache → Result UtxoCache
  pub commit_batch : UtxoCache → Result UtxoCache
  pub first_batch_idr : UtxoCache → Option Text
  -- `BatchRequestHandler._commit`, of so many transactions and both roots.
  pub commit_txns :
      TokenLedger → TokenState → ℕ → Text → Text → Result (List Txn × TokenLedger × TokenState)
  pub b58decode : Text → Option Text

-- A state root as bytes, or as the text that encodes them.
pub data StateRoot : Type 0 where
  bytes encoded : Text → StateRoot

-- What a batch handler reads of a transaction of the domain ledger.
pub record DomainTxn : Type 0 where
  pub txn_type : Text
  pub seq_no : ℕ

-- `[get_seq_no(t) for t in committed_txns if has_deducted_fees(…)]`
unfoldable pub seq_nos_with_fees : Tracker → List DomainTxn → List ℕ
seq_nos_with_fees fees_tracker [] = []
seq_nos_with_fees fees_tracker (t ∷ ts) =
    if has_deducted_fees fees_tracker t.txn_type t.seq_no
    then t.seq_no ∷ seq_nos_with_fees fees_tracker ts
    else seq_nos_with_fees fees_tracker ts

-- The loop that adds the fees transactions to the reply, from the counter `i` on.
unfoldable pub add_fees {ℓ} :
    {A : Type ℓ} → List ℕ → List A → ℕ → List DomainTxn → Result (List (DomainTxn × Option A))
add_fees seq_nos token_txns i [] = ok []
add_fees seq_nos token_txns i (t ∷ ts) = elim (contains t.seq_no seq_nos) [
  | true ↦ (do
    x ← or_raise (get_elem? token_txns i) Exn.index_error
    rest ← add_fees seq_nos token_txns (suc i) ts
    ok ((t, some x) ∷ rest))
  | false ↦ (do rest ← add_fees seq_nos token_txns i ts; ok ((t, none) ∷ rest))
]

-- The comparison of two identifiers, of which the first may be None.
unfoldable pub same_root : Option Text → Text → Bool
same_root none r = false
same_root (some s) r = text_eq s r

module _ (p : Plenum) where
  open p use {head_hash, uncommitted_root_hash, uncommitted_size, create_batch_from_current}

  -- The objects that the handlers share.
  pub record Node : Type 0 where
    pub token_state : p.TokenState
    pub token_ledger : p.TokenLedger
    pub token_tracker : p.TokenTracker
    pub utxo_cache : p.UtxoCache
    pub fees_tracker : Tracker

  unfoldable pub root_bytes : StateRoot → Result Text
  root_bytes (bytes r) = ok r
  root_bytes (encoded s) = or_raise (p.b58decode s) Exn.value_error

  unfoldable pub commit_to_utxo_cache : p.UtxoCache → StateRoot → Result p.UtxoCache
  unfolding root_bytes same_root
  commit_to_utxo_cache utxo_cache state_root = do
    r ← root_bytes state_root
    if same_root (p.first_batch_idr utxo_cache) r
        then p.commit_batch utxo_cache
        else err Exn.token_value_error

  -- The mark of the token ledger as it stands.
  unfoldable pub current_mark : Node → Mark
  current_mark n = record {
    state_root = head_hash n.token_state;
    txn_root = uncommitted_root_hash n.token_ledger;
    size = uncommitted_size n.token_ledger;
  }
