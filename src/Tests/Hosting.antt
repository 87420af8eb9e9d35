-- ===== src/Tests/Hosting.antt =====
-- A node whose databases, ledgers and handlers are kept in functions and lists.
use token_plugin.Prelude.{
  ℕ, ◌≡◌, refl, Bool, true, Option, none, some, List, [], ◌∷◌, ◌++◌, ◌==◌, if◌then◌else◌, arith,
}
use token_plugin.Text.{Text, text_eq, text_eq_refl}
use token_plugin.Errors.{Exn, ok, err}
use token_plugin.Wiring.Batches.{
  BatchHandler, own, utxo_batch_handler, token_batch_handler, domain_fee_batch_handler,
  tracker_batch_handler, node_reg_handler, primary_reg_handler, audit_b_handler, foreign,
  BatchManager, IsBatchManager, token_register_batch_handlers, fees_register_batch_handlers,
  register_batch_handlers_lem,
}
use token_plugin.Wiring.Host.{
  rocksdb, Config, Authnr, token_authnr, Callbacks, Storages, DbManager, LedgerManager,
  Authenticators,
}
use token_plugin.Wiring.Integrate.{
  Peer, token_integrate_plugin_in_node, fees_integrate_plugin_in_node,
}
use token_plugin.Wiring.Host.{IsDbManager, IsLedgerManager}
use token_plugin.Wiring.Integrated.{IsIntegrated, integrate_plugin_in_node_lem}
use token_plugin.Tests.Plenum.{counts, Counts}
use token_plugin.Tests.Registry.{manager, manager_laws}

abbrev add_to : List BatchHandler → BatchHandler → Bool → List BatchHandler
add_to l h add_to_begin = if add_to_begin then h ∷ l else l ++ h ∷ []

abbrev batch_manager : BatchManager
batch_manager = record {
  State = ℕ → List BatchHandler;
  register_batch_handler = λ w h l b k. if l == k then add_to (w k) h b else w k;
}

abbrev batch_laws : IsBatchManager batch_manager
batch_laws = record { handlers_of = λ w k. w k; handlers-register = λ w h l k b. refl }

abbrev audited : ℕ → List BatchHandler
audited k = foreign k ∷ []

register_batch_handlers_lem_example :
    let w' =
      fees_register_batch_handlers batch_manager 1
        (token_register_batch_handlers batch_manager 1 audited) in
    (w' 1001
      ≡ own token_batch_handler
        ∷ own utxo_batch_handler
        ∷ foreign 1001
        ∷ node_reg_handler
        ∷ primary_reg_handler
        ∷ audit_b_handler
        ∷ own tracker_batch_handler
        ∷ [])
    × (w' 1 ≡ foreign 1 ∷ own domain_fee_batch_handler ∷ [])
    × (w' 2 ≡ foreign 2 ∷ [])
register_batch_handlers_lem_example =
    register_batch_handlers_lem batch_manager batch_laws 1 refl audited 2 refl refl

-- The databases by their ids, the stores by their labels, and the trackers.
record Bases : Type 0 where
  base : ℕ → Option (Counts × (Text × Text))
  store : Text → Option (List Text)
  tracker : ℕ → Option counts.TokenTracker

abbrev first_of {ℓ κ} : {A : Type ℓ} {C : Type κ} → Option (A × C) → Option A
first_of none = none
first_of (some (a, c)) = some a

abbrev second_of {ℓ κ} : {A : Type ℓ} {C : Type κ} → Option (A × C) → Option C
second_of none = none
second_of (some (a, c)) = some c

abbrev bases : DbManager counts
bases = record {
  State = Bases;
  register_new_database =
      λ d i l s. record d { base = λ j. if i == j then some (l, s) else d.base j };
  register_new_store = λ d k c. record d { store = λ j. if text_eq k j then some c else d.store j };
  register_new_tracker =
      λ d i t. record d { tracker = λ j. if i == j then some t else d.tracker j };
  get_ledger = λ d i. first_of (d.base i);
  get_state = λ d i. second_of (d.base i);
  get_tracker = λ d i. d.tracker i;
  get_store = λ d k. d.store k;
}

same_id : (i : ℕ) → (i == i) ≡ true
same_id i = ground arith

bases-IsDbManager : IsDbManager counts bases
bases-IsDbManager = record {
  ledger-database = λ d i l s. rw (same_id i) refl;
  state-database = λ d i l s. rw (same_id i) refl;
  ledger-store = λ d k c i. refl;
  state-store = λ d k c i. refl;
  store-store = λ d k c. rw (text_eq_refl k) refl;
  store-tracker = λ d i t k. refl;
  tracker-tracker = λ d i t. rw (same_id i) refl;
}

abbrev ledgers : LedgerManager counts (Unit {0})
ledgers = record {
  State = ℕ → Option (Callbacks counts (Unit {0}));
  add_ledger = λ s i l f j.
      if i == j then some (record { post_catchup_complete = none; post_txn_added = f }) else s j;
  on_new_ledger_added = λ s i. s;
  registry = λ s i. s i;
  set_callbacks = λ s i c j. if i == j then some c else s j;
}

ledgers-IsLedgerManager : IsLedgerManager counts (Unit {0}) ledgers
ledgers-IsLedgerManager = record {
  registry-add = λ s i l f. rw (same_id i) refl;
  registry-new = λ s i. refl;
  registry-set = λ s i c. rw (same_id i) refl;
}

abbrev token_among : List Authnr → Option Authnr
token_among [] = none
token_among (token_authnr ∷ l) = some token_authnr
token_among (a ∷ l) = token_among l

abbrev authnrs : Authenticators
authnrs = record {
  State = List Authnr;
  register_authenticator = λ l a. a ∷ l;
  get_token_authnr = token_among;
}

abbrev storages : Storages counts
storages = record {
  Store = Text;
  init_key_value_storage = λ t location name. name;
  pruning_state = λ s. (s, s);
  new_ledger = λ location name. record { size = 0; committed = 0 };
  utxo_cache = λ s. [];
}

abbrev config : Config
config = record {
  token_transactions_file = [];
  token_state_storage = rocksdb;
  token_state_db_name = [];
  utxo_cache_storage = rocksdb;
  utxo_cache_db_name = [];
}

abbrev host : Peer counts (Unit {0}) manager batch_manager bases ledgers authnrs storages
host = record {
  config = config;
  data_location = [];
  auth_map = [];
  ledger_ids = 1 ∷ [];
  databases = record { base = λ i. none; store = λ k. none; tracker = λ i. none };
  ledgers = λ i. none;
  post_txn_from_catchup = λ i t b. tt;
  request_handlers = [];
  batch_handlers = audited;
  authenticators = [];
  fees_authorizers = [];
  pre_sig_subscribers = [];
}

abbrev third : Text → Text → Text → Text
third a b c = a ++ b ++ c

abbrev fourth : Text → Text → Text → Text → Text
fourth a b c d = a ++ b ++ c ++ d

abbrev trustee : Text
trustee = b'0' ∷ []

abbrev Integrated :
    Peer counts (Unit {0}) manager batch_manager bases ledgers authnrs storages → Type 0
Integrated =
    IsIntegrated counts (Unit {0}) manager batch_manager bases ledgers authnrs storages fourth
      trustee 1 (λ t. []) host

integrate_plugin_in_node_lem_example :
    ((n' : Peer counts (Unit {0}) manager batch_manager bases ledgers authnrs storages)
      × (fees_integrate_plugin_in_node counts
            (Unit {0})
            manager
            batch_manager
            bases
            ledgers
            authnrs
            storages
            fourth
            trustee
            1
            (λ t. [])
            (token_integrate_plugin_in_node counts
              (Unit {0})
              manager
              batch_manager
              bases
              ledgers
              authnrs
              storages
              third
              trustee
              1
              host)
          ≡ ok n')
      × Integrated n')
    × (fees_integrate_plugin_in_node counts
          (Unit {0})
          manager
          batch_manager
          bases
          ledgers
          authnrs
          storages
          fourth
          trustee
          1
          (λ t. [])
          host
        ≡ err Exn.plain_exception)
integrate_plugin_in_node_lem_example =
    integrate_plugin_in_node_lem counts (Unit {0}) manager batch_manager bases ledgers authnrs
      storages fourth trustee 1 (λ t. []) bases-IsDbManager ledgers-IsLedgerManager manager_laws
      refl (λ s. refl) third host host refl
