-- ===== src/History/Spent.antt =====
-- An output that was spent is never paid with again, however the history goes on.
use token_plugin.Prelude.{ℕ, ◌≤◌, ◌≡◌, ap, ◌∙◌, ◌≢◌, true, Option, some, List, arith}
use token_plugin.Text.{Text}
use token_plugin.Errors.{Result, ok}
use token_plugin.Storage.{KvStore, TrieState}
use token_plugin.Cache.{Input}
use token_plugin.Ledger.{Ledger, owed, names, AreDistinct}
use token_plugin.Ledger.Book.{Turn-IsGone, Turn-IsKept, Turn-last, Turn-spent}
use token_plugin.Ledger.Gone.{IsGone, owed-held}
use token_plugin.Ledger.Supply.{AreUnique}
use token_plugin.Xfer.{Payload, dynamic_validation}
use token_plugin.Xfer.Conserves.{dynamic_validation-owed}
use token_plugin.Fees.Authorizer.{FeesAttr, accepted, authorize}
use token_plugin.Fees.Domain.{TxnLedger, fees_request}
use token_plugin.Fees.Domain.Charges.{fees_request-owed}
use token_plugin.Fees.TransferFee.{xfer_request, xfer_request-owed}
use token_plugin.Token.{Payment}
use token_plugin.History.{Node, Step, spends, Reach, here, next}
use token_plugin.History.Sound.{IsSound, Step-Turned}

module _ (kv : KvStore) (ts : TrieState) (tl : TxnLedger) (addrs : List Text)
    (unique : AreUnique addrs) (i : Input) where
  -- The objects agree, on a ledger in which the input is gone, and its number was given.
  record IsSpent (s : Node kv ts tl addrs) : Type 0 where
    sound : IsSound kv ts tl addrs unique s
    given : i.seq_no ≤ s.last
    gone : IsGone i.address i.seq_no sound.ledger

  Step-IsSpent : {s s' : Node kv ts tl addrs} → Step kv ts tl addrs s s' → IsSpent s → IsSpent s'
  Step-IsSpent st h =
      let t = Step-Turned kv ts tl addrs unique st h.sound.ledger h.sound.linked h.sound.kept in
      record {
        sound = record {
          ledger = t.ledger;
          linked = t.linked;
          kept = Turn-IsKept addrs unique _ _ t.turn h.sound.kept;
        };
        given = omega (arith, h.given, Turn-last addrs _ _ t.turn);
        gone = Turn-IsGone addrs _ _ i.address i.seq_no t.turn h.given h.gone;
      }

  Reach-IsSpent : {s t : Node kv ts tl addrs} → Reach kv ts tl addrs s t → IsSpent s → IsSpent t
  Reach-IsSpent here h = h
  Reach-IsSpent (next r st) h = Step-IsSpent st (Reach-IsSpent r h)

  spends-IsSpent :
      {s s' : Node kv ts tl addrs} (st : Step kv ts tl addrs s s')
      → names i (spends kv ts tl addrs st) ≡ true
      → IsSound kv ts tl addrs unique s
      → IsSpent s'
  spends-IsSpent st named h =
      let t = Step-Turned kv ts tl addrs unique st h.ledger h.linked h.kept in
      let (given, gone) =
        Turn-spent addrs _ _ i t.turn (ap (names i) t.spent ∙ named) h.linked.agreed.once h.kept in
      record {
        sound = record {
          ledger = t.ledger;
          linked = t.linked;
          kept = Turn-IsKept addrs unique _ _ t.turn h.kept;
        };
        given = given;
        gone = gone;
      }

  -- What is gone cannot be owed for.
  gone-owed :
      (v : Ledger) (inputs : List Input) (t : ℕ)
      → IsGone i.address i.seq_no v
      → names i inputs ≡ true
      → owed v inputs ≢ some t
  gone-owed v inputs t g named e = let (x, held) = owed-held v i inputs t e named in cc (g, held)

  -- From objects that agree, once a step has spent an output, then in every later state no transfer
  -- that names it passes `dynamic_validation`, and the authorizer accepts neither a transfer nor
  -- fees that name it, provided that the request names no input twice.
  pub spent_forever :
      {s s' t : Node kv ts tl addrs} (st : Step kv ts tl addrs s s')
      → names i (spends kv ts tl addrs st) ≡ true
      → Reach kv ts tl addrs s' t
      → IsSound kv ts tl addrs unique s
      → (validate : Payload → Result (Unit {0})) (p : Payload) (fees : List (Text × ℕ))
        (alias : Option Text) (a : FeesAttr) (own_inputs : List Input) (own_outputs : List Payment)
        (signatures : List Text)
      → names i p.inputs ≡ true
      → AreDistinct p.inputs
      → (dynamic_validation kv ts validate t.world.cache p ≢ ok tt)
        × (authorize kv t.world.cache fees alias (xfer_request p a) ≢ ok accepted)
        × (authorize kv t.world.cache fees alias
              (fees_request p.inputs p.outputs signatures own_inputs own_outputs)
            ≢ ok accepted)
  spent_forever st named r h validate p fees alias a own_inputs own_outputs signatures again d =
      let q = Reach-IsSpent r (spends-IsSpent st named h) in
      let v = q.sound.ledger in
      (
        λ e.
            gone-owed v p.inputs _ q.gone again
              (dynamic_validation-owed kv ts validate _ v p q.sound.linked.held d e),
        λ e.
            gone-owed v p.inputs _ q.gone again
              (xfer_request-owed kv fees alias a _ v p q.sound.linked.held d e),
        λ e. gone-owed v p.inputs _ q.gone again (
            fees_request-owed kv ts tl fees alias p.inputs own_inputs p.outputs own_outputs
              signatures _ v q.sound.linked.held d e),
      )
