-- ===== src/Wiring/Host.antt =====
-- The node that the plugins are integrated into: the objects of plenum and indy that both
-- `integrate_plugin_in_node` change, as interfaces, and what the plugins keep there.
use token_plugin.Prelude.{ℕ, ◌≡◌, Bool, Option, none, some, List}
use token_plugin.Text.{Text}
use token_plugin.Batch.{Plenum, Node}
use token_plugin.Wiring.{Manager}
use token_plugin.Wiring.Batches.{BatchManager}

-- `KeyValueStorageType`
pub data StorageType : Type 0 where
  rocksdb : StorageType
  other_storage : ℕ → StorageType

-- What the plugin adds to the configuration.
pub record Config : Type 0 where
  pub token_transactions_file : Text
  pub token_state_storage : StorageType
  pub token_state_db_name : Text
  pub utxo_cache_storage : StorageType
  pub utxo_cache_db_name : Text

-- `AuthConstraint` of indy, with the role and the count of signatures that the maps give.
pub record Constraint : Type 0 where
  pub role : Text
  pub sig_count : ℕ

-- The authenticators, told apart by their types.
pub data Authnr : Type 0 where
  token_authnr : Authnr
  fees_authnr : Authnr → Authnr
  foreign_authnr : ℕ → Authnr

-- The callbacks of a ledger in the registry: one after catch-up, which may be missing, and one for
-- each transaction that is added.
pub record Callbacks (p : Plenum) (R : Type 0) : Type 0 where
  pub post_catchup_complete : Option (Node p → Node p)
  pub post_txn_added : ℕ → p.Txn → Bool → R

-- The constructors of the storages and ledgers; where they are kept, and how durably, is left to
-- them.
pub record Storages (p : Plenum) : Type 1 where
  pub Store : Type 0
  pub init_key_value_storage : StorageType → Text → Text → Store
  pub pruning_state : Store → p.TokenState
  pub new_ledger : Text → Text → p.TokenLedger
  pub utxo_cache : Store → p.UtxoCache

-- The database manager.
pub record DbManager (p : Plenum) : Type 1 where
  pub State : Type 0
  pub register_new_database : State → ℕ → p.TokenLedger → p.TokenState → State
  pub register_new_store : State → Text → p.UtxoCache → State
  pub register_new_tracker : State → ℕ → p.TokenTracker → State
  pub get_ledger : State → ℕ → Option p.TokenLedger
  pub get_state : State → ℕ → Option p.TokenState
  pub get_tracker : State → ℕ → Option p.TokenTracker
  pub get_store : State → Text → Option p.UtxoCache

-- The ledger manager with its registry, and the node's `on_new_ledger_added`.
pub record LedgerManager (p : Plenum) (R : Type 0) : Type 1 where
  pub State : Type 0
  pub add_ledger : State → ℕ → Option p.TokenLedger → (ℕ → p.Txn → Bool → R) → State
  pub on_new_ledger_added : State → ℕ → State
  pub registry : State → ℕ → Option (Callbacks p R)
  pub set_callbacks : State → ℕ → Callbacks p R → State

-- `clientAuthNr`
pub record Authenticators : Type 1 where
  pub State : Type 0
  pub register_authenticator : State → Authnr → State
  pub get_token_authnr : State → Option Authnr

-- What plenum documents of the databases: what was registered is found, and stays.
pub record IsDbManager (p : Plenum) (db : DbManager p) : Type 0 where
  pub ledger-database :
      (d : db.State) (i : ℕ) (l : p.TokenLedger) (s : p.TokenState)
      → db.get_ledger (db.register_new_database d i l s) i ≡ some l
  pub state-database :
      (d : db.State) (i : ℕ) (l : p.TokenLedger) (s : p.TokenState)
      → db.get_state (db.register_new_database d i l s) i ≡ some s
  pub ledger-store :
      (d : db.State) (k : Text) (c : p.UtxoCache) (i : ℕ)
      → db.get_ledger (db.register_new_store d k c) i ≡ db.get_ledger d i
  pub state-store :
      (d : db.State) (k : Text) (c : p.UtxoCache) (i : ℕ)
      → db.get_state (db.register_new_store d k c) i ≡ db.get_state d i
  pub store-store :
      (d : db.State) (k : Text) (c : p.UtxoCache)
      → db.get_store (db.register_new_store d k c) k ≡ some c
  pub store-tracker :
      (d : db.State) (i : ℕ) (t : p.TokenTracker) (k : Text)
      → db.get_store (db.register_new_tracker d i t) k ≡ db.get_store d k
  pub tracker-tracker :
      (d : db.State) (i : ℕ) (t : p.TokenTracker)
      → db.get_tracker (db.register_new_tracker d i t) i ≡ some t

-- A ledger that is added is in the registry with its callback; the node's own work on a new ledger
-- leaves it there.
pub record IsLedgerManager (p : Plenum) (R : Type 0) (lm : LedgerManager p R) : Type 0 where
  pub registry-add :
      (s : lm.State) (i : ℕ) (l : Option p.TokenLedger) (f : ℕ → p.Txn → Bool → R)
      → lm.registry (lm.add_ledger s i l f) i
        ≡ some (record { post_catchup_complete = none; post_txn_added = f })
  pub registry-new :
      (s : lm.State) (i : ℕ) → lm.registry (lm.on_new_ledger_added s i) i ≡ lm.registry s i
  pub registry-set :
      (s : lm.State) (i : ℕ) (c : Callbacks p R) → lm.registry (lm.set_callbacks s i c) i ≡ some c

module _ (p : Plenum) (R : Type 0) (wm : Manager) (bm : BatchManager) (db : DbManager p)
    (lm : LedgerManager p R) (am : Authenticators) where
  -- The node. Of the authorizer of fees it keeps the cache, and of the subscription to the check of
  -- signatures the authenticator.
  pub record Host : Type 0 where
    pub config : Config
    pub data_location : Text
    pub auth_map : List (Text × Constraint)
    pub ledger_ids : List ℕ
    pub databases : db.State
    pub ledgers : lm.State
    pub post_txn_from_catchup : ℕ → p.Txn → Bool → R
    pub request_handlers : wm.State
    pub batch_handlers : bm.State
    pub authenticators : am.State
    pub fees_authorizers : List (Option p.UtxoCache)
    pub pre_sig_subscribers : List Authnr
