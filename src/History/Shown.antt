-- ===== src/History/Shown.antt =====
-- What GET_UTXO shows of the states of a history.
use token_plugin.Prelude.{ℕ, ◌+◌, ◌≡◌, List}
use token_plugin.Text.{Text}
use token_plugin.Errors.{ok}
use token_plugin.Storage.{KvStore, TrieState}
use token_plugin.Ledger.Supply.{AreUnique, supply}
use token_plugin.Fees.Domain.{TxnLedger}
use token_plugin.GetUtxo.Total.{shown_total, AreListed, shown_total-supply}
use token_plugin.History.{Node, Reach}
use token_plugin.History.Sound.{IsSound, Reach-IsSound}

module _ (kv : KvStore) (ts : TrieState) (tl : TxnLedger) (addrs : List Text)
    (unique : AreUnique addrs) where
  -- In every state that transfers, mints and charges of fees lead to, each after its own validation,
  -- from objects that agree, GET_UTXO collects without an error from the state's entries of each of
  -- the addresses, which are without ':', and the outputs of all of them are worth together what was
  -- minted less the fees that were due.
  pub Reach-shown_total :
      {s t : Node kv ts tl addrs}
      → Reach kv ts tl addrs s t
      → IsSound kv ts tl addrs unique s
      → (rlp : Text → Text) (rv : Text → List (Text × Text))
      → AreListed ts rlp t.world.state rv addrs
      → (n : ℕ) × (shown_total rlp rv addrs ≡ ok n) × (n + t.fees ≡ t.minted)
  Reach-shown_total {t = t} r h rlp rv l =
      let q = Reach-IsSound kv ts tl addrs unique r h in
      (
        supply addrs q.ledger,
        shown_total-supply ts rlp t.world.state q.ledger rv addrs q.linked.agreed l,
        q.kept.balanced,
      )
