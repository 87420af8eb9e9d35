-- ===== src/Batch/Laws.antt =====
-- What plenum documents of the objects that the batch handlers share, and what of them agrees
-- between two batches. A list of marks or of batches has the newest first.
pub mod Marks
pub mod Applied
pub mod Newest
pub mod Rejected
pub mod Oldest
pub mod Committed
pub mod Steps
pub mod Reach
pub mod Restored
pub mod Charges
use token_plugin.Prelude.{
  ℕ, ◌+◌, ◌-◌, ◌≤◌, ◌<◌, ◌≡◌, ◌≢◌, Bool, true, false, ◌||◌, Option, none, some, List, [], ◌∷◌, ◌++◌,
  ltb, if◌then◌else◌, length, All,
}
use token_plugin.Text.{Text}
use token_plugin.Errors.{Result, ok, err}
use token_plugin.Batch.{Mark, Tracked, Plenum, Node, current_mark}

-- The newest mark, which is the last committed one if there is no other.
abbrev pub top : Mark → List Mark → Mark
top b [] = b
top b (m ∷ r) = m

abbrev pub since : Mark → Mark → Tracked
since b m = record { state_root = b.state_root; txn_root = b.txn_root; txn_count = m.size - b.size }

-- The laws: what the tracker notes it returns, newest first for a rejection and oldest first for a
-- commit; the key-value store keeps its batches likewise; a commit, which is given the
-- root that the ledger has with the oldest transactions that were not committed, returns these and
-- commits the state to the other root; a ledger that drops its last transactions
-- has the root that it had before them; a commit moves nothing but what is committed.
pub record IsPlenum (p : Plenum) : Type 0 where
  pub marks : p.TokenTracker → Mark × List Mark
  pub batches : p.UtxoCache → List Text
  pub history : p.TokenLedger → ℕ → Text
  pub committed_size : p.TokenLedger → ℕ
  pub oldest : p.TokenLedger → ℕ → List p.Txn
  pub head-revert : (s : p.TokenState) (h : Text) → p.head_hash (p.revert_to_head s h) ≡ h
  pub root-history :
      (l : p.TokenLedger) → p.uncommitted_root_hash l ≡ history l (p.uncommitted_size l)
  pub size-discard :
      (l : p.TokenLedger) (k : ℕ)
      → p.uncommitted_size (p.discard_txns l k) ≡ p.uncommitted_size l - k
  pub history-discard :
      (l : p.TokenLedger) (k j : ℕ)
      → j ≤ p.uncommitted_size l - k
      → history (p.discard_txns l k) j ≡ history l j
  pub committed-discard :
      (l : p.TokenLedger) (k : ℕ) → committed_size (p.discard_txns l k) ≡ committed_size l
  pub size-ledger : (l : p.TokenLedger) → p.ledger_size l ≡ committed_size l
  pub marks-new : (m : Mark) → marks (p.new_tracker m) ≡ (m, [])
  pub marks-set :
      (t : p.TokenTracker) (b m : Mark)
      → marks t ≡ (b, [])
      → marks (p.set_last_committed t m) ≡ (m, [])
  pub marks-track :
      (t : p.TokenTracker) (b m : Mark) (r : List Mark)
      → marks t ≡ (b, r)
      → marks (p.track t m) ≡ (b, m ∷ r)
  pub untracked :
      (t : p.TokenTracker) (b m : Mark) (r : List Mark)
      → marks t ≡ (b, m ∷ r)
      → (t' : p.TokenTracker) × (p.untrack t ≡ ok (since (top b r) m, t')) × (marks t' ≡ (b, r))
  pub track_committed :
      (t : p.TokenTracker) (b m : Mark) (r : List Mark)
      → marks t ≡ (b, r ++ m ∷ [])
      → (t' : p.TokenTracker) × (p.track_commit t
          ≡ ok (
            record {
              state_root = m.state_root;
              txn_root = m.txn_root;
              txn_count = m.size - b.size;
            },
            t',
          ))
        × (marks t' ≡ (m, r))
  pub batches-create :
      (c : p.UtxoCache) (h : Text) → batches (p.create_batch_from_current c h) ≡ h ∷ batches c
  pub batch_rejected :
      (c : p.UtxoCache) (h : Text) (r : List Text)
      → batches c ≡ h ∷ r
      → (c' : p.UtxoCache) × (p.reject_batch c ≡ ok c') × (batches c' ≡ r)
  pub batch_committed :
      (c : p.UtxoCache) (h : Text) (r : List Text)
      → batches c ≡ r ++ h ∷ []
      → (c' : p.UtxoCache) × (p.first_batch_idr c ≡ some h)
        × (p.commit_batch c ≡ ok c')
        × (batches c' ≡ r)
  pub txns_committed :
      (l : p.TokenLedger) (s : p.TokenState) (k : ℕ) (h r : Text)
      → k ≤ p.uncommitted_size l - committed_size l
      → history l (committed_size l + k) ≡ r
      → (l' : p.TokenLedger) × (s' : p.TokenState) × (p.commit_txns l s k h r
          ≡ ok (oldest l k, l', s'))
        × (length (oldest l k) ≡ k)
        × (p.uncommitted_size l' ≡ p.uncommitted_size l)
        × (committed_size l' ≡ committed_size l + k)
        × ((j : ℕ) → history l' j ≡ history l j)
        × (p.head_hash s' ≡ p.head_hash s)
        × (p.committed_head_hash s' ≡ h)

-- A batch changes both roots exactly if it has transactions.
pub record Follows (b m : Mark) : Type 0 where
  pub grows : b.size ≤ m.size
  pub stays : m.size ≡ b.size → m.state_root ≡ b.state_root
  pub state_moves : b.size < m.size → m.state_root ≢ b.state_root
  pub root_moves : b.size < m.size → m.txn_root ≢ b.txn_root

-- A batch since the last commit: its mark, and whether it is of the token ledger itself or of the
-- domain ledger, whose fees it has.
pub record Pending : Type 0 where
  pub mark : Mark
  pub of_token : Bool

abbrev pub marks_of : List Pending → List Mark
marks_of [] = []
marks_of (x ∷ r) = x.mark ∷ marks_of r

abbrev pub newest : Mark → List Pending → Mark
newest b r = top b (marks_of r)

abbrev pub Chained : Mark → List Pending → Type 0
Chained b [] = Unit
Chained b (x ∷ r) = Follows (newest b r) x.mark × Chained b r

-- The state root of the batch, if the cache has one for it: of the domain ledger only if it has fees.
abbrev pub own_root : Mark → Pending → List Text
own_root b x = if x.of_token || ltb b.size x.mark.size then x.mark.state_root ∷ [] else []

abbrev pub cache_roots : Mark → List Pending → List Text
cache_roots b [] = []
cache_roots b (x ∷ r) = own_root (newest b r) x ++ cache_roots b r

module _ (p : Plenum) (laws : IsPlenum p) where
  -- The ledger had the root of the mark when it had its size.
  abbrev pub Rooted : p.TokenLedger → Mark → Type 0
  Rooted l m = laws.history l m.size ≡ m.txn_root

  -- The objects agree on the batches `r` since the last commit `b`: the tracker notes them, the ledger
  -- has their transactions and those of the batch in progress, and the cache has a batch for each
  -- of the token ledger and each with fees.
  pub record InStep (n : Node p) (b : Mark) (r : List Pending) : Type 0 where
    pub tracked : laws.marks n.token_tracker ≡ (b, marks_of r)
    pub sized :
        p.uncommitted_size n.token_ledger ≡ (newest b r).size + n.fees_tracker.fees_in_current_batch
    pub committed : laws.committed_size n.token_ledger ≡ b.size
    pub chained : Chained b r
    pub rooted : Rooted n.token_ledger b × All (Rooted n.token_ledger) (marks_of r)
    pub cached : laws.batches n.utxo_cache ≡ cache_roots b r
    pub current : Follows (newest b r) (current_mark p n)
