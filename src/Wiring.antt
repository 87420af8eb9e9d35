-- ===== src/Wiring.antt =====
-- The handlers that the plugins register with a node: `register_req_handlers` and
-- `register_batch_handlers` of sovtoken/sovtoken/main.py and sovtokenfees/sovtokenfees/main.py. The
-- write manager is plenum's and an interface; an `ImportError` is a plain exception here.
pub mod Registered
pub mod Batches
pub mod Host
pub mod Integrate
pub mod Integrated
use token_plugin.Prelude.{
  ℕ, Bool, true, false, not, ◌||◌, List, [], ◌∷◌, ◌++◌, is_empty, if◌then◌else◌, ◌≡◌,
}
use token_plugin.Text.{Text, text_eq}
use token_plugin.Errors.{Exn, Result, ok, err}
use token_plugin.Authn.Dispatch.{xfer_public}

-- The handlers of write requests that the plugins bring, and any other.
pub data Handler : Type 0 where
  xfer_handler xfer_handler_100 mint_handler : Handler
  set_fees_handler set_fees_handler_093 xfer_fee_handler domain_fee_handler : Handler
  fee_txn_catchup_handler auth_rule_fee_handler auth_rules_fee_handler : Handler
  foreign : ℕ → Handler

-- The operations of `WriteRequestManager` on request handlers, with the type that a handler has.
pub record Manager : Type 1 where
  pub State : Type 0
  pub txn_type : Handler → Text
  pub register_for : State → Handler → Text → State
  pub register_with_version : State → Handler → Text → State
  pub remove_req_handler : State → Text → State
  pub has_type : State → Text → Bool
  pub domain_types : State → List Text

-- '1.0.0' and '0.9.3'
abbrev pub version_100 : Text
version_100 = b'1' ∷ b'.' ∷ b'0' ∷ b'.' ∷ b'0' ∷ []

abbrev pub version_093 : Text
version_093 = b'0' ∷ b'.' ∷ b'9' ∷ b'.' ∷ b'3' ∷ []

module _ (wm : Manager) where
  -- Without a type, the handler's own.
  unfoldable pub register : wm.State → Handler → wm.State
  register w h = wm.register_for w h (wm.txn_type h)

  unfoldable pub token_register_req_handlers : wm.State → wm.State
  unfolding register
  token_register_req_handlers w =
      register (wm.register_with_version (register w xfer_handler) xfer_handler_100 version_100)
        mint_handler

  -- The loop over the types of the domain ledger.
  unfoldable pub register_each : wm.State → List Text → wm.State
  register_each w [] = w
  register_each w (typ ∷ types) = register_each (wm.register_for w domain_fee_handler typ) types

  -- The part after the check that the token plugin is there; the read manager's handlers are left
  -- out.
  unfoldable pub replace_handlers : wm.State → wm.State
  unfolding register register_each
  replace_handlers w =
      let w1 = register (wm.remove_req_handler w xfer_public) xfer_fee_handler in
      let w2 = register_each w1 (wm.domain_types w1) in
      register (register (register w2 fee_txn_catchup_handler) auth_rule_fee_handler)
        auth_rules_fee_handler

  unfoldable pub fees_register_req_handlers : wm.State → Result wm.State
  unfolding register replace_handlers
  fees_register_req_handlers w =
      let w1 =
        wm.register_with_version (register w set_fees_handler) set_fees_handler_093 version_093 in
      if wm.has_type w1 xfer_public then ok (replace_handlers w1) else err Exn.plain_exception
