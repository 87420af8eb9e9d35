-- ===== src/Wiring/Integrate.antt =====
-- `integrate_plugin_in_node` of sovtoken/sovtoken/main.py and of sovtokenfees/sovtokenfees/main.py,
-- with the maps of rules that they add (sovtoken_auth_map.py, sovtokenfees_auth_map.py). An
-- `ImportError` and an `AttributeError` are plain exceptions here. Handlers of reads are left out.
use token_plugin.Prelude.{ℕ, some, List, [], ◌∷◌, ◌++◌, contains, if◌then◌else◌}
use token_plugin.Text.{Text}
use token_plugin.Errors.{Exn, Result, ok, ◌>>=◌, or_raise}
use token_plugin.Authn.Dispatch.{mint_public, xfer_public, set_fees}
use token_plugin.Batch.{Plenum}
use token_plugin.Batch.Wiring.{register_trackers, post_catchup_complete, filter_fees}
use token_plugin.Text.Dict.{assign}
use token_plugin.Fees.Domain.{Tracker}
use token_plugin.Wiring.{Manager, token_register_req_handlers, fees_register_req_handlers}
use token_plugin.Wiring.Batches.{
  BatchManager, token_ledger_id, token_register_batch_handlers, fees_register_batch_handlers,
}
use token_plugin.Wiring.Host.{
  rocksdb, Config, Constraint, token_authnr, fees_authnr, Storages, DbManager, LedgerManager,
  Authenticators, Host,
}

-- "*"
abbrev pub any : Text
any = b'*' ∷ []

-- "utxo_cache"
abbrev pub utxo_cache_label : Text
utxo_cache_label = b'u' ∷ b't' ∷ b'x' ∷ b'o' ∷ b'_' ∷ b'c' ∷ b'a' ∷ b'c' ∷ b'h' ∷ b'e' ∷ []

-- 'sovtoken_transactions' and 'sovtoken_state'
abbrev pub sovtoken : Text
sovtoken = b's' ∷ b'o' ∷ b'v' ∷ b't' ∷ b'o' ∷ b'k' ∷ b'e' ∷ b'n' ∷ b'_' ∷ []

abbrev pub transactions_file : Text
transactions_file =
    sovtoken
    ++ (b't' ∷ b'r' ∷ b'a' ∷ b'n' ∷ b's' ∷ b'a' ∷ b'c' ∷ b't' ∷ b'i' ∷ b'o' ∷ b'n' ∷ b's' ∷ [])

abbrev pub state_db_name : Text
state_db_name = sovtoken ++ (b's' ∷ b't' ∷ b'a' ∷ b't' ∷ b'e' ∷ [])

-- FEE_TXN
abbrev pub fee_txn : Text
fee_txn = b'2' ∷ b'0' ∷ b'0' ∷ b'0' ∷ b'2' ∷ []

unfoldable pub update_config : Config → Config
update_config c = record {
  token_transactions_file = transactions_file;
  token_state_storage = rocksdb;
  token_state_db_name = state_db_name;
  utxo_cache_storage = rocksdb;
  utxo_cache_db_name = utxo_cache_label;
}

-- `auth_map.update(m)`
unfoldable pub update_auth_map :
    List (Text × Constraint) → List (Text × Constraint) → List (Text × Constraint)
unfolding assign
update_auth_map auth_map [] = auth_map
update_auth_map auth_map ((k, c) ∷ m) = update_auth_map (assign k c auth_map) m

-- The ids of the actions are indy's: of an addition by its type, field and value, and of an edit by
-- its type, field, old and new value. TRUSTEE is plenum's.
unfoldable pub sovtoken_auth_map : (Text → Text → Text → Text) → Text → List (Text × Constraint)
sovtoken_auth_map add_action_id trustee =
    (add_action_id mint_public any any, record { role = trustee; sig_count = 3 })
    ∷ (add_action_id xfer_public any any, record { role = any; sig_count = 0 })
    ∷ []

unfoldable pub sovtokenfees_auth_map :
    (Text → Text → Text → Text → Text) → Text → List (Text × Constraint)
sovtokenfees_auth_map edit_action_id trustee =
    (edit_action_id set_fees any any any, record { role = trustee; sig_count = 3 }) ∷ []

module _ (p : Plenum) (R : Type 0) (wm : Manager) (bm : BatchManager) (db : DbManager p)
    (lm : LedgerManager p R) (am : Authenticators) (st : Storages p) where
  abbrev pub Peer : Type 0
  Peer = Host p R wm bm db lm am

  unfoldable pub init_token_state : Peer → p.TokenState
  init_token_state n = st.pruning_state (
      st.init_key_value_storage n.config.token_state_storage n.data_location
        n.config.token_state_db_name)

  unfoldable pub init_token_ledger : Peer → p.TokenLedger
  init_token_ledger n = st.new_ledger n.data_location n.config.token_transactions_file

  unfoldable pub init_token_database : Peer → Peer
  init_token_database n = record n {
    ledgers =
        lm.on_new_ledger_added
          (lm.add_ledger n.ledgers token_ledger_id (db.get_ledger n.databases token_ledger_id)
            n.post_txn_from_catchup)
          token_ledger_id;
  }

  unfoldable pub init_storages : Peer → Peer
  unfolding init_token_database init_token_state init_token_ledger
  init_storages n =
      let n1 = record n {
        ledger_ids =
            if contains token_ledger_id n.ledger_ids
            then n.ledger_ids
            else n.ledger_ids ++ token_ledger_id ∷ [];
      } in
      let n2 = init_token_database (record n1 {
        databases =
            db.register_new_database n1.databases token_ledger_id (init_token_ledger n1)
              (init_token_state n1);
      }) in
      record n2 {
        databases = db.register_new_store n2.databases utxo_cache_label (
            st.utxo_cache (
              st.init_key_value_storage n2.config.utxo_cache_storage n2.data_location
                n2.config.utxo_cache_db_name));
      }

  unfoldable pub token_register_authentication : Peer → Peer
  token_register_authentication n = record n {
    authenticators = am.register_authenticator n.authenticators token_authnr;
  }

  unfoldable pub token_integrate_plugin_in_node :
      (Text → Text → Text → Text) → Text → ℕ → Peer → Peer
  unfolding init_storages token_register_authentication
  token_integrate_plugin_in_node add_action_id trustee domain_ledger_id n =
      let n1 = record n { config = update_config n.config } in
      let n2 = init_storages (record n1 {
        auth_map = update_auth_map n1.auth_map (sovtoken_auth_map add_action_id trustee);
      }) in
      token_register_authentication (record n2 {
        request_handlers = token_register_req_handlers wm n2.request_handlers;
        batch_handlers = token_register_batch_handlers bm domain_ledger_id n2.batch_handlers;
      })

  -- The state and the ledger are read off before the tracker is made; a database that is not there
  -- has none.
  unfoldable pub make_trackers : Peer → Result (Tracker × Peer)
  make_trackers n = do
    token_state ← or_raise (db.get_state n.databases token_ledger_id) Exn.plain_exception
    token_ledger ← or_raise (db.get_ledger n.databases token_ledger_id) Exn.plain_exception
    let made = register_trackers p token_state token_ledger
    ok (made.0, record n { databases = db.register_new_tracker n.databases token_ledger_id made.1 })

  -- Both callbacks of the token ledger; it has to be in the registry.
  unfoldable pub set_callbacks : (p.Txn → Text) → Peer → Result Peer
  set_callbacks get_type n = do
    c ← or_raise (lm.registry n.ledgers token_ledger_id) Exn.key_error
    ok (record n {
      ledgers = lm.set_callbacks n.ledgers token_ledger_id (record {
        post_catchup_complete = some (post_catchup_complete p c.post_catchup_complete);
        post_txn_added =
            λ ledger_id txn b. filter_fees c.post_txn_added get_type fee_txn ledger_id txn;
      });
    })

  -- `register_authentication` and `register_hooks`
  unfoldable pub fees_register_authentication : Peer → Result Peer
  fees_register_authentication n = do
    token ← or_raise (am.get_token_authnr n.authenticators) Exn.plain_exception
    ok (record n {
      authenticators = am.register_authenticator n.authenticators (fees_authnr token);
      fees_authorizers = n.fees_authorizers ++ db.get_store n.databases utxo_cache_label ∷ [];
      pre_sig_subscribers = n.pre_sig_subscribers ++ fees_authnr token ∷ [];
    })

  unfoldable pub fees_integrate_plugin_in_node :
      (Text → Text → Text → Text → Text) → Text → ℕ → (p.Txn → Text) → Peer → Result Peer
  unfolding make_trackers set_callbacks fees_register_authentication
  fees_integrate_plugin_in_node edit_action_id trustee domain_ledger_id get_type n = do
    tracked ← make_trackers n
    let n1 = tracked.1
    let n2 = record n1 {
      auth_map = update_auth_map n1.auth_map (sovtokenfees_auth_map edit_action_id trustee);
    }
    handlers ← fees_register_req_handlers wm n2.request_handlers
    let n3 = record n2 {
      request_handlers = handlers;
      batch_handlers = fees_register_batch_handlers bm domain_ledger_id n2.batch_handlers;
    }
    n4 ← set_callbacks get_type n3
    fees_register_authentication n4
