-- ===== src/History/Sound.antt =====
-- Every step of the code is a turn of the specification's history, and leaves the cache, the token
-- state and the specification in agreement.
use mathlib.Core.Path.{subst}
use token_plugin.Prelude.{
  ℕ, ◌+◌, ◌<◌, ◌≡◌, refl, ap, ap₂, sym, ◌∙◌, Bool, true, false, none, some, List, [], ◌∷◌, arith,
}
use token_plugin.Text.{Text}
use token_plugin.Errors.{Result, ok}
use token_plugin.Storage.{KvStore, TrieState}
use token_plugin.Cache.{Input}
use token_plugin.Ledger.{Ledger, owed}
use token_plugin.Ledger.Book.{
  Book, ArePayable, Turn, transferred, paid_out, inputs_of, IsKept, payable-AreFresh, Turn-IsKept,
}
use token_plugin.Ledger.Fresh.{AreFresh}
use token_plugin.Ledger.Supply.{supply, AreUnique}
use token_plugin.Ledger.Transaction.{transfer}
use token_plugin.Ledger.Transfer.{transfer_total, receive_each_total}
use token_plugin.Token.{Payment, World, sum_outputs}
use token_plugin.Token.Agreement.{live}
use token_plugin.Token.Agreement.Steps.{Linked}
use token_plugin.Xfer.{
  Payload, to_operation_error, add_outputs, dynamic_validation, transfer_with, xfer_update_state,
  xfer_100_update_state, mint_update_state,
}
use token_plugin.Xfer.Agreement.{
  transfer-Linked, transfer_with-Linked, outputs-Linked, catch-Linked,
}
use token_plugin.Xfer.Conserves.{dynamic_validation-owed}
use token_plugin.Fees.Authorizer.{fees_get}
use token_plugin.Fees.Domain.{TxnLedger, update_token_state}
use token_plugin.Fees.Domain.Charges.{fees_request-owed, apply_request-world}
use token_plugin.Fees.TransferFee.{xfer_request-owed}
use token_plugin.History.{
  AreSpendable, Node, Step, xfer, xfer_100, xfer_fee, mint, charge, Reach, here, next, book, spends,
}

supply-none : (addrs : List Text) → supply addrs (λ a. none) ≡ 0
supply-none [] = refl
supply-none (a ∷ addrs) = omega (arith, supply-none addrs)

module _ (kv : KvStore) (ts : TrieState) (tl : TxnLedger) (addrs : List Text)
    (unique : AreUnique addrs) where
  -- What a step of the code leaves: the agreement with a ledger that a turn, which spends the
  -- inputs, leads to.
  pub record Turned (b : Book) (s' : Node kv ts tl addrs) (inputs : List Input) : Type 0 where
    pub ledger : Ledger
    pub linked : Linked kv ts false s'.world ledger
    pub turn : Turn addrs b (book kv ts tl addrs s' ledger)
    pub spent : inputs_of turn ≡ inputs

  module _ (s : Node kv ts tl addrs) (v : Ledger) (l : Linked kv ts false s.world v)
      (k : IsKept addrs (book kv ts tl addrs s v)) where
    fresh :
        (outputs : List Payment) (n : ℕ)
        → s.last < n
        → ArePayable addrs outputs
        → AreFresh n v outputs
    fresh outputs n new po = payable-AreFresh (book kv ts tl addrs s v) n outputs k.bounded new po.2

    -- Inputs that are worth the outputs and a fee are moved whole.
    moved-Turned :
        (inputs : List Input) (outputs : List Payment) (n fee : ℕ) (s' : Node kv ts tl addrs)
        → s.last < n
        → AreSpendable kv ts tl addrs inputs
        → ArePayable addrs outputs
        → owed v inputs ≡ some (sum_outputs outputs + fee)
        → ((v' : Ledger)
            → AreFresh n v outputs
            → transfer inputs outputs n v ≡ (ok tt, v')
            → Linked kv ts false s'.world v')
        → s'.last ≡ n
        → s'.minted ≡ s.minted
        → s'.fees ≡ s.fees + fee
        → Turned (book kv ts tl addrs s v) s' inputs
    moved-Turned inputs outputs n fee s' new (ci, clean, d) po owe link last minted fees =
        let (v', done, moved) =
          transfer_total addrs unique v inputs outputs n (sum_outputs outputs + fee) ci po.0 d
            owe in
        record {
          ledger = v';
          linked = link v' (fresh outputs n new po) done;
          turn = transferred inputs outputs n fee new ci d po owe done last minted fees;
          spent = refl;
        }

    -- Either handler of transfers.
    xfer-Turned :
        (validate : Payload → Result (Unit {0})) (p : Payload) (n : ℕ) (r : Bool)
        → s.last < n
        → AreSpendable kv ts tl addrs p.inputs
        → ArePayable addrs p.outputs
        → dynamic_validation kv ts validate s.world.cache p ≡ ok tt
        → Turned
            (book kv ts tl addrs s v)
            (record s { world = (transfer_with kv ts r p n false s.world).1; last = n })
            p.inputs
    xfer-Turned validate p n r new sp po e =
        moved-Turned p.inputs p.outputs n 0 _ new sp po
          (dynamic_validation-owed kv ts validate s.world.cache v p l.held sp.2 e
            ∙ ap some (omega arith))
          (λ v' f done. (transfer_with-Linked kv ts false r p n s.world v v' l sp.1 po.1 f done).1)
          refl refl (omega arith)

    mint-Turned :
        (outputs : List Payment) (n : ℕ)
        → s.last < n
        → ArePayable addrs outputs
        → Turned
            (book kv ts tl addrs s v)
            (record s {
              world = (mint_update_state kv ts outputs n false s.world).1;
              last = n;
              minted = s.minted + sum_outputs outputs;
            })
            []
    unfolding mint_update_state
    mint-Turned outputs n new po =
        let (v', done, raised) = receive_each_total addrs unique v outputs n po.0 in
        record {
          ledger = v';
          linked =
              (catch-Linked kv ts false to_operation_error (add_outputs kv ts outputs n false)
                s.world v'
                (outputs-Linked kv ts false outputs n s.world v v' l po.1 (fresh outputs n new po)
                  done)).1;
          turn = paid_out outputs n new po done refl refl refl;
          spent = refl;
        }

    -- The fees transaction, by whatever number and from whatever world is known to be these.
    charged-Linked :
        (inputs : List Input) (outputs : List Payment) (n m : ℕ) (w w' : World kv ts) (v' : Ledger)
        → w' ≡ (update_token_state kv ts tl inputs outputs m false w).1
        → w ≡ s.world
        → m ≡ n
        → AreSpendable kv ts tl addrs inputs
        → ArePayable addrs outputs
        → AreFresh n v outputs
        → transfer inputs outputs n v ≡ (ok tt, v')
        → Linked kv ts false w' v'
    unfolding update_token_state
    charged-Linked inputs outputs n m w w' v' e same numbered sp po f done =
        let reached =
          e ∙ ap₂ (λ k u. (update_token_state kv ts tl inputs outputs k false u).1) numbered same in
        subst (λ u. Linked kv ts false u v') (sym reached)
          (transfer-Linked kv ts false true inputs outputs n s.world v v' l sp.1 po.1 f done).1

  -- From objects that agree, each step is a turn.
  pub Step-Turned :
      {s s' : Node kv ts tl addrs} (st : Step kv ts tl addrs s s') (v : Ledger)
      → Linked kv ts false s.world v
      → IsKept addrs (book kv ts tl addrs s v)
      → Turned (book kv ts tl addrs s v) s' (spends kv ts tl addrs st)
  unfolding xfer_update_state xfer_100_update_state
  Step-Turned (xfer s validate p n new sp po e) v l k =
      xfer-Turned s v l k validate p n true new sp po e
  Step-Turned (xfer_100 s validate p n new sp po e) v l k =
      xfer-Turned s v l k validate p n false new sp po e
  Step-Turned (xfer_fee s fees alias a p n new sp po e) v l k =
      moved-Turned s v l k p.inputs p.outputs n (fees_get fees alias) _ new sp po
        (xfer_request-owed kv fees alias a s.world.cache v p l.held sp.2 e)
        (λ v' f done. (transfer_with-Linked kv ts false true p n s.world v v' l sp.1 po.1 f done).1)
        refl refl refl
  Step-Turned (mint s outputs n new po) v l k = mint-Turned s v l k outputs n new po
  Step-Turned
        (charge s fees alias ledger_id txn_type prev inputs own_inputs change own_outputs signatures
          q n same numbered new sp po e)
        v l k =
      moved-Turned s v l k inputs change n (fees_get fees alias) _ new sp po
        (fees_request-owed kv ts tl fees alias inputs own_inputs change own_outputs signatures
          s.world.cache v l.held sp.2 e)
        (λ v' f done.
          charged-Linked s v l k inputs change n _ q.world _ v'
            (apply_request-world kv ts tl ledger_id txn_type prev inputs own_inputs change
              own_outputs signatures q)
            same (numbered _) sp po f done)
        refl refl refl

  -- The cache holds a ledger, the token state agrees with it, no output has a number that was not
  -- given yet, and the addresses hold what was minted less the fees.
  pub record IsSound (s : Node kv ts tl addrs) : Type 0 where
    pub ledger : Ledger
    pub linked : Linked kv ts false s.world ledger
    pub kept : IsKept addrs (book kv ts tl addrs s ledger)

  -- Before the first transaction, with nothing in the cache and in the state.
  pub start-IsSound :
      (s : Node kv ts tl addrs)
      → ((k : Text) → kv.get s.world.cache k false ≡ none)
      → ((k : Text) → ts.get s.world.state k ≡ none)
      → s.minted ≡ s.fees
      → IsSound s
  start-IsSound s cache state even = record {
    ledger = λ a. none;
    linked = record {
      held = record { at = cache };
      agreed = record { at = λ a n h. ap live (state _); once = λ a. tt };
    };
    kept = record { bounded = λ a n h. refl; balanced = omega (arith, supply-none addrs, even) };
  }

  pub Step-IsSound :
      {s s' : Node kv ts tl addrs} → Step kv ts tl addrs s s' → IsSound s → IsSound s'
  Step-IsSound st h =
      let t = Step-Turned st h.ledger h.linked h.kept in
      record {
        ledger = t.ledger;
        linked = t.linked;
        kept = Turn-IsKept addrs unique _ _ t.turn h.kept;
      }

  -- In every state that transfers, mints and charges of fees lead to, each after its own validation,
  -- from objects for which it holds, the cache holds a ledger and the token state agrees with it; no
  -- output has a number that was not given yet; and the addresses hold together what was minted
  -- less the fees that were due.
  pub Reach-IsSound : {s t : Node kv ts tl addrs} → Reach kv ts tl addrs s t → IsSound s → IsSound t
  Reach-IsSound here h = h
  Reach-IsSound (next r st) h = Step-IsSound st (Reach-IsSound r h)
