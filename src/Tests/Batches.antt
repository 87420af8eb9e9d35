-- ===== src/Tests/Batches.antt =====
-- Three transactions are committed, and then there are the batches of one fee and two transfers.
use token_plugin.Prelude.{
  true, false, ℕ, ◌+◌, ◌≡◌, ◌≢◌, refl, ap, Option, List, [], ◌∷◌, arith, length, ltb, if◌then◌else◌,
}
use token_plugin.Prelude.Int.{ℤ}
use token_plugin.Text.{Text, text_eq}
use token_plugin.Text.Decimal.{str}
use token_plugin.Errors.{ok}
use token_plugin.Text.Dict.{has_key}
use token_plugin.Fees.Domain.{Tracker, has_deducted_fees, deducted_key}
use token_plugin.Batch.{Mark, Node, DomainTxn, current_mark, seq_nos_with_fees}
use token_plugin.Batch.FeeHandler.{
  post_batch_applied, post_batch_rejected, commit_batch, reset_fees,
}
use token_plugin.Batch.TrackerHandler
use token_plugin.Batch.UtxoHandler
use token_plugin.Batch.Wiring.{committed_mark, register_trackers}
use token_plugin.Batch.Reply.{Assigned}
use token_plugin.Batch.Laws.{InStep, Pending}
use token_plugin.Batch.Laws.Applied.{post_batch_applied-InStep}
use token_plugin.Batch.Laws.Rejected.{post_batch_rejected-InStep}
use token_plugin.Batch.Laws.Committed.{commit_batch-InStep}
use token_plugin.Batch.Laws.Steps.{Reach, integrated, applied, charged, token_applied}
use token_plugin.Batch.Laws.Reach.{Reach-InStep}
use token_plugin.Batch.Laws.Restored.{reject_each, reject_each-IsRestored}
use token_plugin.Tests.Plenum.{counts, counts_laws}

-- A fee is charged, and the batch is applied, and then rejected or committed.
abbrev base : Mark
base = record { state_root = 8 ∷ []; txn_root = 3 ∷ []; size = 3 }

abbrev nym : Text
nym = b'1' ∷ []

abbrev tracker_of : ℕ → Tracker
tracker_of k = record {
  fees_in_current_batch = k;
  deducted_fees = (b'1' ∷ b'#' ∷ b'6' ∷ [], ℤ.pos 2) ∷ [];
}

abbrev charged_node : Node counts
charged_node = record {
  token_state = (9 ∷ [], 8 ∷ []);
  token_ledger = record { size = 4; committed = 3 };
  token_tracker = (base, []);
  utxo_cache = [];
  fees_tracker = tracker_of 1;
}

abbrev first_or : ℕ → Text → ℕ
first_or d [] = d
first_or d (c ∷ t) = c

texts_ne : (c d : ℕ) (s t : Text) → c ≢ d → (c ∷ s) ≢ (d ∷ t)
texts_ne c d s t ne e = ne (ap (first_or 0) e)

charged_node-InStep : InStep counts counts_laws charged_node base []
unfolding current_mark
charged_node-InStep = record {
  tracked = refl;
  sized = refl;
  committed = refl;
  chained = tt;
  rooted = (refl, tt);
  cached = refl;
  current = record {
    grows = omega arith;
    stays = λ e. absurd (omega (arith, e));
    state_moves = λ lt. texts_ne 9 8 [] [] (λ e. absurd (omega (arith, e)));
    root_moves = λ lt. texts_ne 4 3 [] [] (λ e. absurd (omega (arith, e)));
  };
}

abbrev fees_batch : Pending
fees_batch = record {
  mark = record { state_root = 9 ∷ []; txn_root = 4 ∷ []; size = 4 };
  of_token = false;
}

abbrev batch_node : Node counts
batch_node = record {
  token_state = (9 ∷ [], 8 ∷ []);
  token_ledger = record { size = 4; committed = 3 };
  token_tracker = (base, fees_batch.mark ∷ []);
  utxo_cache = (9 ∷ []) ∷ [];
  fees_tracker = tracker_of 0;
}

batch_node-InStep : InStep counts counts_laws batch_node base (fees_batch ∷ [])
unfolding post_batch_applied current_mark reset_fees
batch_node-InStep =
    post_batch_applied-InStep counts counts_laws charged_node base [] charged_node-InStep

post_batch_rejected-InStep_example :
    (n' : Node counts) × (post_batch_rejected counts batch_node ≡ (ok tt, n'))
    × InStep counts counts_laws n' base []
    × (n'.fees_tracker ≡ tracker_of 0)
post_batch_rejected-InStep_example =
    post_batch_rejected-InStep counts counts_laws batch_node base fees_batch [] batch_node-InStep
      refl refl

abbrev domain_txns : List DomainTxn
domain_txns = record { txn_type = nym; seq_no = 5 } ∷ record { txn_type = nym; seq_no = 6 } ∷ []

one_noted : 3 + length (seq_nos_with_fees (tracker_of 0) domain_txns) ≡ 4
unfolding seq_nos_with_fees has_deducted_fees has_key deducted_key text_eq str
one_noted = refl

commit_batch-InStep_example :
    (reply : List (DomainTxn × Option ℕ)) × (n' : Node counts) × (commit_batch counts domain_txns
        batch_node
      ≡ (ok reply, n'))
    × Assigned
        (tracker_of 0)
        domain_txns
        (counts_laws.oldest batch_node.token_ledger
          (length (seq_nos_with_fees (tracker_of 0) domain_txns)))
        reply
    × (counts.committed_head_hash n'.token_state ≡ (
        if ltb 0 (length (seq_nos_with_fees (tracker_of 0) domain_txns)) then 9 ∷ [] else 8 ∷ []))
    × InStep counts counts_laws n' fees_batch.mark []
commit_batch-InStep_example =
    commit_batch-InStep counts counts_laws batch_node base fees_batch [] domain_txns
      batch_node-InStep refl refl (refl, (refl, tt)) one_noted

-- The node when the plugin is integrated.
abbrev first_node : Node counts
first_node = record {
  token_state = (8 ∷ [], 8 ∷ []);
  token_ledger = record { size = 3; committed = 3 };
  token_tracker = (base, []);
  utxo_cache = [];
  fees_tracker = tracker_of 0;
}

first_reached : Reach counts counts_laws first_node base []
unfolding committed_mark register_trackers
first_reached =
    integrated first_node
      (record { same_size = refl; same_head = refl; no_batches = refl; no_fees = refl }) refl

fees_reached : Reach counts counts_laws batch_node base (fees_batch ∷ [])
unfolding post_batch_applied current_mark reset_fees
fees_reached = applied charged_node base [] (
    charged first_node charged_node base [] first_reached (record {
      same_marks = refl;
      same_batches = refl;
      same_committed = refl;
      one_more = refl;
      counted = refl;
      kept = λ j h. refl;
      new_state = texts_ne 9 8 [] [] (λ e. absurd (omega (arith, e)));
      new_root = texts_ne 4 3 [] [] (λ e. absurd (omega (arith, e)));
    }))

-- Two transfers follow in a batch of the token ledger.
abbrev token_batch : Pending
token_batch = record {
  mark = record { state_root = 7 ∷ []; txn_root = 6 ∷ []; size = 6 };
  of_token = true;
}

abbrev token_node : Node counts
token_node = record {
  token_state = (7 ∷ [], 8 ∷ []);
  token_ledger = record { size = 6; committed = 3 };
  token_tracker = (base, token_batch.mark ∷ fees_batch.mark ∷ []);
  utxo_cache = (7 ∷ []) ∷ (9 ∷ []) ∷ [];
  fees_tracker = tracker_of 0;
}

token_reached : Reach counts counts_laws token_node base (token_batch ∷ fees_batch ∷ [])
unfolding UtxoHandler.post_batch_applied TrackerHandler.post_batch_applied current_mark
token_reached =
    token_applied batch_node
      (record batch_node {
        token_state = (7 ∷ [], 8 ∷ []);
        token_ledger = record { size = 6; committed = 3 };
      })
      base (fees_batch ∷ []) fees_reached refl
      (record {
        same_marks = refl;
        same_batches = refl;
        same_committed = refl;
        same_fees = refl;
        kept = λ j h. refl;
        current = record {
          grows = omega arith;
          stays = λ e. absurd (omega (arith, e));
          state_moves = λ lt. texts_ne 7 9 [] [] (λ e. absurd (omega (arith, e)));
          root_moves = λ lt. texts_ne 6 4 [] [] (λ e. absurd (omega (arith, e)));
        };
      })

Reach-InStep_example : InStep counts counts_laws token_node base (token_batch ∷ fees_batch ∷ [])
Reach-InStep_example =
    Reach-InStep counts counts_laws token_node base (token_batch ∷ fees_batch ∷ []) token_reached

reject_each-IsRestored_example :
    (n' : Node counts) × (reject_each counts counts_laws base
        (token_batch ∷ fees_batch ∷ [])
        token_node
      ≡ (ok tt, n'))
    × (counts.head_hash n'.token_state ≡ base.state_root)
    × (counts.uncommitted_root_hash n'.token_ledger ≡ base.txn_root)
    × (counts_laws.batches n'.utxo_cache ≡ [])
reject_each-IsRestored_example =
    reject_each-IsRestored counts counts_laws token_node base (token_batch ∷ fees_batch ∷ [])
      token_reached refl
