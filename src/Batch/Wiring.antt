-- ===== src/Batch/Wiring.antt =====
-- How the fees plugin is tied to the token ledger: `register_trackers` and the callbacks of
-- sovtokenfees/sovtokenfees/main.py.
use token_plugin.Prelude.{ℕ, Bool, not, Option, none, some, []}
use token_plugin.Text.{Text, text_eq}
use token_plugin.Fees.Domain.{Tracker}
use token_plugin.Batch.{Mark, Plenum, Node}

-- `filter_fees`: what the callback of the ledger is told of a transaction that catch-up added.
unfoldable pub filter_fees {ℓ κ} :
    {T : Type ℓ} {R : Type κ} → (ℕ → T → Bool → R) → (T → Text) → Text → ℕ → T → R
filter_fees origin_token_post_added_clb get_type fees ledger_id txn =
    origin_token_post_added_clb ledger_id txn (not (text_eq (get_type txn) fees))

module _ (p : Plenum) where
  -- What the tracker is told of the state and the ledger.
  unfoldable pub committed_mark : p.TokenState → p.TokenLedger → Mark
  committed_mark token_state token_ledger = record {
    state_root = p.committed_head_hash token_state;
    txn_root = p.uncommitted_root_hash token_ledger;
    size = p.ledger_size token_ledger;
  }

  unfoldable pub register_trackers : p.TokenState → p.TokenLedger → Tracker × p.TokenTracker
  unfolding committed_mark
  register_trackers token_state token_ledger = (
    record { fees_in_current_batch = 0; deducted_fees = [] },
    p.new_tracker (committed_mark token_state token_ledger),
  )

  -- The callback that was there before, if there was one.
  unfoldable pub run_origin : Option (Node p → Node p) → Node p → Node p
  run_origin none n = n
  run_origin (some origin_clb) n = origin_clb n

  unfoldable pub reset_tracker : Node p → Node p
  unfolding committed_mark
  reset_tracker n = record n {
    token_tracker =
        p.set_last_committed n.token_tracker (committed_mark n.token_state n.token_ledger);
  }

  unfoldable pub post_catchup_complete : Option (Node p → Node p) → Node p → Node p
  unfolding run_origin reset_tracker
  post_catchup_complete origin_clb n = reset_tracker (run_origin origin_clb n)
