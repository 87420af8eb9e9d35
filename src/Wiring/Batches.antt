-- ===== src/Wiring/Batches.antt =====
-- The batch handlers that both plugins register: `register_batch_handlers` of
-- sovtoken/sovtoken/main.py and sovtokenfees/sovtokenfees/main.py. The write manager is plenum's and
-- an interface.
use token_plugin.Prelude.{
  ℕ, ◌≡◌, Bool, true, false, List, [], ◌∷◌, ◌++◌, append_assoc, ◌==◌, if◌then◌else◌, arith,
}

-- The batch handlers of the plugins, those of the node that they use, and any other.
pub data OwnHandler : Type 0 where
  utxo_batch_handler token_batch_handler : OwnHandler
  domain_fee_batch_handler tracker_batch_handler : OwnHandler

pub data BatchHandler : Type 0 where
  own : OwnHandler → BatchHandler
  node_reg_handler primary_reg_handler audit_b_handler : BatchHandler
  foreign : ℕ → BatchHandler

-- `register_batch_handler`: the handler, the ledger, and whether it comes first.
pub record BatchManager : Type 1 where
  pub State : Type 0
  pub register_batch_handler : State → BatchHandler → ℕ → Bool → State

-- TOKEN_LEDGER_ID
abbrev pub token_ledger_id : ℕ
token_ledger_id = 1001

module _ (bm : BatchManager) (domain_ledger_id : ℕ) where
  -- The ledger that a handler's `__init__` hands on.
  abbrev pub ledger_of : OwnHandler → ℕ
  ledger_of utxo_batch_handler = token_ledger_id
  ledger_of token_batch_handler = token_ledger_id
  ledger_of domain_fee_batch_handler = domain_ledger_id
  ledger_of tracker_batch_handler = token_ledger_id

  -- Without a ledger, the handler's own.
  unfoldable pub register_own : bm.State → OwnHandler → Bool → bm.State
  register_own w h add_to_begin = bm.register_batch_handler w (own h) (ledger_of h) add_to_begin

  unfoldable pub token_register_batch_handlers : bm.State → bm.State
  unfolding register_own
  token_register_batch_handlers w =
      let w1 = register_own (register_own w utxo_batch_handler true) token_batch_handler true in
      let w2 = bm.register_batch_handler w1 node_reg_handler token_ledger_id false in
      let w3 = bm.register_batch_handler w2 primary_reg_handler token_ledger_id false in
      bm.register_batch_handler w3 audit_b_handler token_ledger_id false

  unfoldable pub fees_register_batch_handlers : bm.State → bm.State
  unfolding register_own
  fees_register_batch_handlers w =
      register_own (register_own w domain_fee_batch_handler false) tracker_batch_handler false

-- What plenum documents: each ledger has its handlers in a list, and a new one comes at either end.
pub record IsBatchManager (bm : BatchManager) : Type 0 where
  pub handlers_of : bm.State → ℕ → List BatchHandler
  pub handlers-register :
      (w : bm.State) (h : BatchHandler) (l k : ℕ) (add_to_begin : Bool)
      → handlers_of (bm.register_batch_handler w h l add_to_begin) k ≡ (
          if l == k
          then (if add_to_begin then h ∷ handlers_of w k else handlers_of w k ++ h ∷ [])
          else handlers_of w k)

module _ (bm : BatchManager) (laws : IsBatchManager bm) (domain_ledger_id : ℕ)
    (apart : (token_ledger_id == domain_ledger_id) ≡ false) where
  open laws use {handlers_of}

  -- Once both plugins are there, a batch of the token ledger has first the handlers of the plugin,
  -- that of the ledger before that of the cache, then those that were there, those of the node's
  -- audit, and last that of the tracker; a batch of the domain ledger has the one that commits fees
  -- after those that it had; and no other ledger has a new one.
  pub register_batch_handlers_lem :
      (w : bm.State) (k : ℕ)
      → (token_ledger_id == k) ≡ false
      → (domain_ledger_id == k) ≡ false
      → let w' =
          fees_register_batch_handlers bm domain_ledger_id
            (token_register_batch_handlers bm domain_ledger_id w) in
        (handlers_of w' token_ledger_id
          ≡ own token_batch_handler
            ∷ own utxo_batch_handler
            ∷ (handlers_of w token_ledger_id
                ++ (node_reg_handler
                    ∷ primary_reg_handler
                    ∷ audit_b_handler
                    ∷ own tracker_batch_handler
                    ∷ [])))
        × (handlers_of w' domain_ledger_id
            ≡ handlers_of w domain_ledger_id ++ own domain_fee_batch_handler ∷ [])
        × (handlers_of w' k ≡ handlers_of w k)
  unfolding token_register_batch_handlers fees_register_batch_handlers register_own
  register_batch_handlers_lem w k not_token not_domain =
      let back : (domain_ledger_id == token_ledger_id) ≡ false = ground arith in
      let self : (domain_ledger_id == domain_ledger_id) ≡ true = ground arith in
      (
        simp (laws.handlers-register, back, append_assoc),
        simp (laws.handlers-register, apart, self),
        simp (laws.handlers-register, not_token, not_domain),
      )
