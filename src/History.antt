-- ===== src/History.antt =====
-- The histories of the token ledger: what its transactions and the fees of domain requests, one
-- after the other, do to the token state and the uncommitted cache. Each request is applied under a
-- number above those before it, after its own validation. Of the static validation it is used that
-- outputs go to different addresses and that no address has ':' in it.

pub mod Sound
pub mod Spent
pub mod Shown
use token_plugin.Prelude.{ℕ, ◌+◌, ◌<◌, ◌≡◌, false, Option, List, []}
use token_plugin.Text.{Text}
use token_plugin.Errors.{Result, ok}
use token_plugin.Storage.{KvStore, TrieState}
use token_plugin.Cache.{Input}
use token_plugin.Ledger.{Ledger, AreDistinct}
use token_plugin.Ledger.Book.{Book, ArePayable}
use token_plugin.Ledger.Transfer.{CoversInputs}
use token_plugin.Token.{Payment, World, sum_outputs}
use token_plugin.Token.Agreement.Steps.{AreClean}
use token_plugin.Xfer.{
  Payload, dynamic_validation, xfer_update_state, xfer_100_update_state, mint_update_state,
}
use token_plugin.Fees.Authorizer.{FeesAttr, accepted, fees_get, authorize}
use token_plugin.Fees.Domain.{PrevResult, FeeTxn, TxnLedger, FeesState, fees_request, apply_request}
use token_plugin.Fees.TransferFee.{xfer_request}

module _ (kv : KvStore) (ts : TrieState) (tl : TxnLedger) (addrs : List Text) where
  -- Inputs of the addresses, none of which is named twice.
  abbrev pub AreSpendable : List Input → Type 0
  AreSpendable inputs = CoversInputs addrs inputs × AreClean kv ts false inputs × AreDistinct inputs

  -- The state and the cache, the last number that was given, and the sums of the mints and of the
  -- fees.
  pub record Node : Type 0 where
    pub world : World kv ts
    pub last : ℕ
    pub minted : ℕ
    pub fees : ℕ

  pub data Step : Node → Node → Type 0 where
    -- A transfer, where no fees plugin is.
    xfer :
        (s : Node) (validate : Payload → Result (Unit {0})) (p : Payload) (n : ℕ)
        → s.last < n
        → AreSpendable p.inputs
        → ArePayable addrs p.outputs
        → dynamic_validation kv ts validate s.world.cache p ≡ ok tt
        → Step s (record s { world = (xfer_update_state kv ts p n false s.world).1; last = n })
    xfer_100 :
        (s : Node) (validate : Payload → Result (Unit {0})) (p : Payload) (n : ℕ)
        → s.last < n
        → AreSpendable p.inputs
        → ArePayable addrs p.outputs
        → dynamic_validation kv ts validate s.world.cache p ≡ ok tt
        → Step s (record s { world = (xfer_100_update_state kv ts p n false s.world).1; last = n })
    -- A transfer that the authorizer of fees accepts.
    xfer_fee :
        (s : Node) (fees : List (Text × ℕ)) (alias : Option Text) (a : FeesAttr) (p : Payload)
        (n : ℕ)
        → s.last < n
        → AreSpendable p.inputs
        → ArePayable addrs p.outputs
        → authorize kv s.world.cache fees alias (xfer_request p a) ≡ ok accepted
        → Step s (record s {
          world = (xfer_update_state kv ts p n false s.world).1;
          last = n;
          fees = s.fees + fees_get fees alias;
        })
    mint :
        (s : Node) (outputs : List Payment) (n : ℕ)
        → s.last < n
        → ArePayable addrs outputs
        → Step s (record s {
          world = (mint_update_state kv ts outputs n false s.world).1;
          last = n;
          minted = s.minted + sum_outputs outputs;
        })
    -- A request on the domain ledger, whose fees the authorizer accepts; the token ledger gives the
    -- fees transaction its number.
    charge :
        (s : Node) (fees : List (Text × ℕ)) (alias : Option Text) (ledger_id : ℕ) (txn_type : Text)
        (prev : PrevResult) (inputs own_inputs : List Input) (change own_outputs : List Payment)
        (signatures : List Text) (q : FeesState kv ts tl) (n : ℕ)
        → q.world ≡ s.world
        → ((txn : FeeTxn) → (tl.append q.ledger txn).0 ≡ n)
        → s.last < n
        → AreSpendable inputs
        → ArePayable addrs change
        → authorize kv s.world.cache fees alias
            (fees_request inputs change signatures own_inputs own_outputs)
          ≡ ok accepted
        → Step s (record s {
          world =
              (apply_request kv ts tl ledger_id txn_type prev
                (fees_request inputs change signatures own_inputs own_outputs)
                q).1.world;
          last = n;
          fees = s.fees + fees_get fees alias;
        })

  -- The inputs that a step spends.
  abbrev pub spends : {s t : Node} → Step s t → List Input
  spends (xfer s validate p n new sp po e) = p.inputs
  spends (xfer_100 s validate p n new sp po e) = p.inputs
  spends (xfer_fee s fees alias a p n new sp po e) = p.inputs
  spends (mint s outputs n new po) = []
  spends
        (charge s fees alias ledger_id txn_type prev inputs own_inputs change own_outputs signatures
          q n same numbered new sp po e) =
      inputs

  pub data Reach (s : Node) : Node → Type 0 where
    here : Reach s s
    next : {t u : Node} → Reach s t → Step t u → Reach s u

  -- The history that a node records, with the ledger that its cache holds.
  abbrev pub book : Node → Ledger → Book
  book s v = record { ledger = v; last = s.last; minted = s.minted; fees = s.fees }
