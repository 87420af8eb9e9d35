-- ===== src/Wiring/Integrated.antt =====
-- The fees plugin is integrated into a node that has the token plugin, and only there.
use token_plugin.Prelude.{
  ℕ, ◌≡◌, refl, ap, sym, ◌∙◌, true, not, none, some, List, [], ◌∷◌, ◌++◌, is_empty, Bool-cases, inl,
  inr,
}
use token_plugin.Text.{Text, text_eq, text_eq_refl}
use token_plugin.Errors.{Exn, ok, err}
use token_plugin.Authn.Dispatch.{xfer_public}
use token_plugin.Batch.{Plenum}
use token_plugin.Batch.Wiring.{register_trackers, post_catchup_complete, filter_fees}
use token_plugin.Wiring.{
  Manager, Handler, xfer_handler, xfer_handler_100, mint_handler, set_fees_handler,
  set_fees_handler_093, version_100, version_093, register, token_register_req_handlers,
  fees_register_req_handlers, replace_handlers,
}
use token_plugin.Wiring.Registered.{IsManager}
use token_plugin.Wiring.Batches.{
  BatchManager, token_ledger_id, fees_register_batch_handlers, token_register_batch_handlers,
}
use token_plugin.Wiring.Host.{
  rocksdb, Authnr, token_authnr, fees_authnr, Callbacks, Storages, DbManager, IsDbManager,
  LedgerManager, IsLedgerManager, Authenticators,
}
use token_plugin.Wiring.Integrate.{
  utxo_cache_label, fee_txn, update_auth_map, sovtokenfees_auth_map, update_config, Peer,
  init_token_state, init_token_ledger, init_token_database, init_storages,
  token_register_authentication, token_integrate_plugin_in_node, make_trackers, set_callbacks,
  fees_register_authentication, fees_integrate_plugin_in_node,
}

module _ (wm : Manager) (laws : IsManager wm) where
  -- Registering any handler keeps a type that has one.
  register-has :
      (w : wm.State) (h : Handler) (t u : Text)
      → wm.has_type w u ≡ true
      → wm.has_type (wm.register_for w h t) u ≡ true
  register-has w h t u there =
      laws.has-handlers (wm.register_for w h t) u
      ∙ ap (λ l. not (is_empty l)) (laws.handlers-register w h t u)
      ∙ elim (Bool-cases (text_eq t u)) [
        | inl same ↦ rw same (not-append (laws.handlers_of w u) h)
        | inr other ↦ rw other (sym (laws.has-handlers w u) ∙ there)
      ]
    where
      not-append : (l : List Handler) (h : Handler) → not (is_empty (l ++ h ∷ [])) ≡ true
      not-append [] h = refl
      not-append (x ∷ l) h = refl

  register_own-has :
      (w : wm.State) (h : Handler) (u : Text)
      → wm.txn_type h ≡ u
      → wm.has_type (register wm w h) u ≡ true
  unfolding register
  register_own-has w h u same =
      laws.has-handlers (wm.register_for w h (wm.txn_type h)) u
      ∙ ap (λ l. not (is_empty l)) (laws.handlers-register w h (wm.txn_type h) u)
      ∙ rw same (rw (text_eq_refl u) (not-append (laws.handlers_of w u)))
    where
      not-append : (l : List Handler) → not (is_empty (l ++ h ∷ [])) ≡ true
      not-append [] = refl
      not-append (x ∷ l) = refl

  version-has :
      (w : wm.State) (h : Handler) (v u : Text)
      → wm.has_type w u ≡ true
      → wm.has_type (wm.register_with_version w h v) u ≡ true
  version-has w h v u there =
      laws.has-handlers (wm.register_with_version w h v) u
      ∙ ap (λ l. not (is_empty l)) (laws.handlers-version w h v u)
      ∙ sym (laws.has-handlers w u)
      ∙ there

  -- The token plugin brings a handler of transfers, which the fees plugin finds and replaces.
  handlers_replaced :
      (w : wm.State)
      → wm.txn_type xfer_handler ≡ xfer_public
      → (w' : wm.State) × (fees_register_req_handlers wm (token_register_req_handlers wm w) ≡ ok w')
  unfolding fees_register_req_handlers token_register_req_handlers register
  handlers_replaced w typed =
      let w2 = wm.register_with_version (register wm w xfer_handler) xfer_handler_100 version_100 in
      let kept = register-has w2 mint_handler (wm.txn_type mint_handler) xfer_public (
        version-has (register wm w xfer_handler) xfer_handler_100 version_100 xfer_public
          (register_own-has w xfer_handler xfer_public typed)) in
      let w3 = register wm w2 mint_handler in
      let there =
        version-has (register wm w3 set_fees_handler) set_fees_handler_093 version_093 xfer_public
          (register-has w3 set_fees_handler (wm.txn_type set_fees_handler) xfer_public kept) in
      let w1 =
        wm.register_with_version (register wm (token_register_req_handlers wm w) set_fees_handler)
          set_fees_handler_093 version_093 in
      (replace_handlers wm w1, rw there refl)

module _ (p : Plenum) (R : Type 0) (wm : Manager) (bm : BatchManager) (db : DbManager p)
    (lm : LedgerManager p R) (am : Authenticators) (st : Storages p)
    (edit_action_id : Text → Text → Text → Text → Text) (trustee : Text) (domain_ledger_id : ℕ)
    (get_type : p.Txn → Text) where
  -- What a node has after the fees plugin is integrated.
  abbrev with_fees :
      Peer p R wm bm db lm am st
      → p.TokenTracker
      → wm.State
      → Callbacks p R
      → Authnr
      → Peer p R wm bm db lm am st
  with_fees n t handlers c token =
      let databases = db.register_new_tracker n.databases token_ledger_id t in
      record n {
        databases = databases;
        auth_map = update_auth_map n.auth_map (sovtokenfees_auth_map edit_action_id trustee);
        request_handlers = handlers;
        batch_handlers = fees_register_batch_handlers bm domain_ledger_id n.batch_handlers;
        ledgers = lm.set_callbacks n.ledgers token_ledger_id (record {
          post_catchup_complete = some (post_catchup_complete p c.post_catchup_complete);
          post_txn_added =
              λ ledger_id txn b. filter_fees c.post_txn_added get_type fee_txn ledger_id txn;
        });
        authenticators = am.register_authenticator n.authenticators (fees_authnr token);
        fees_authorizers = n.fees_authorizers ++ db.get_store databases utxo_cache_label ∷ [];
        pre_sig_subscribers = n.pre_sig_subscribers ++ fees_authnr token ∷ [];
      }

  fees_integrated :
      (n : Peer p R wm bm db lm am st) (s : p.TokenState) (l : p.TokenLedger) (w : wm.State)
      (c : Callbacks p R) (token : Authnr)
      → db.get_state n.databases token_ledger_id ≡ some s
      → db.get_ledger n.databases token_ledger_id ≡ some l
      → fees_register_req_handlers wm n.request_handlers ≡ ok w
      → lm.registry n.ledgers token_ledger_id ≡ some c
      → am.get_token_authnr n.authenticators ≡ some token
      → fees_integrate_plugin_in_node p R wm bm db lm am st edit_action_id trustee domain_ledger_id
          get_type n
        ≡ ok (with_fees n (register_trackers p s l).1 w c token)
  unfolding fees_integrate_plugin_in_node make_trackers set_callbacks fees_register_authentication
  fees_integrated n s l w c token es el ew ec et = simp (es, el, ew, ec, et)

  -- What both integrations leave: a tracker that starts at the state and the ledger that were made; a
  -- callback after catch-up that sets the tracker, and one for added transactions that tells fees
  -- apart; the handlers of both plugins; an authorizer with the new cache; and the check of
  -- signatures by an authenticator of fees on top of that of the token plugin.
  pub record IsIntegrated (n n' : Peer p R wm bm db lm am st) : Type 0 where
    pub tracked :
        let made = record n { config = update_config n.config } in
        db.get_tracker n'.databases token_ledger_id
        ≡ some
            (register_trackers p
              (init_token_state p R wm bm db lm am st made)
              (init_token_ledger p R wm bm db lm am st made)).1
    pub called_back :
        lm.registry n'.ledgers token_ledger_id
        ≡ some (record {
          post_catchup_complete = some (post_catchup_complete p none);
          post_txn_added =
              λ ledger_id txn b. filter_fees n.post_txn_from_catchup get_type fee_txn ledger_id txn;
        })
    pub handlers :
        fees_register_req_handlers wm (token_register_req_handlers wm n.request_handlers)
        ≡ ok n'.request_handlers
    pub batches :
        n'.batch_handlers
        ≡ fees_register_batch_handlers bm domain_ledger_id
            (token_register_batch_handlers bm domain_ledger_id n.batch_handlers)
    pub authorizer :
        n'.fees_authorizers
        ≡ n.fees_authorizers
          ++ some
              (st.utxo_cache (st.init_key_value_storage rocksdb n.data_location utxo_cache_label))
            ∷ []
    pub subscribed : n'.pre_sig_subscribers ≡ n.pre_sig_subscribers ++ fees_authnr token_authnr ∷ []

  module _ (dbl : IsDbManager p db) (lml : IsLedgerManager p R lm) (wml : IsManager wm)
      (typed : wm.txn_type xfer_handler ≡ xfer_public)
      (found : (s : am.State)
        → am.get_token_authnr (am.register_authenticator s token_authnr) ≡ some token_authnr) where
    -- Into a node that has the token plugin the fees plugin is integrated without an error, and the
    -- node then has the handlers of both; the tracker starts at the new state and ledger, both
    -- callbacks of the token ledger are set, the authorizer of fees has the new cache, and the fees
    -- authenticator, on top of that of the token plugin, checks signatures. Into a node without a
    -- state of the token ledger it is not: an exception is raised.
    pub integrate_plugin_in_node_lem :
        (add_action_id : Text → Text → Text → Text) (n m : Peer p R wm bm db lm am st)
        → db.get_state m.databases token_ledger_id ≡ none
        → ((n' : Peer p R wm bm db lm am st) × (fees_integrate_plugin_in_node p R wm bm db lm am st
                edit_action_id trustee domain_ledger_id get_type
                (token_integrate_plugin_in_node p R wm bm db lm am st add_action_id trustee
                  domain_ledger_id n)
              ≡ ok n')
            × IsIntegrated n n')
          × (fees_integrate_plugin_in_node p R wm bm db lm am st edit_action_id trustee
                domain_ledger_id get_type m
              ≡ err Exn.plain_exception)
    unfolding token_integrate_plugin_in_node init_storages init_token_database
        token_register_authentication fees_integrate_plugin_in_node make_trackers update_config
    integrate_plugin_in_node_lem add_action_id n m missing =
        let (w, replaced) = handlers_replaced wm wml n.request_handlers typed in
        let t =
          token_integrate_plugin_in_node p R wm bm db lm am st add_action_id trustee
            domain_ledger_id n in
        let registered =
          lml.registry-new _ token_ledger_id ∙ lml.registry-add _ token_ledger_id _ _ in
        let done =
          fees_integrated t _ _ w _ token_authnr
            (dbl.state-store _ _ _ token_ledger_id ∙ dbl.state-database _ token_ledger_id _ _)
            (dbl.ledger-store _ _ _ token_ledger_id ∙ dbl.ledger-database _ token_ledger_id _ _)
            replaced registered (found _) in
        (
          (
            with_fees t _ w _ token_authnr,
            done,
            record {
              tracked = dbl.tracker-tracker _ token_ledger_id _;
              called_back = lml.registry-set _ token_ledger_id _;
              handlers = replaced;
              batches = refl;
              authorizer =
                  ap (λ c. n.fees_authorizers ++ c ∷ [])
                    (dbl.store-tracker _ _ _ _ ∙ dbl.store-store _ _ _);
              subscribed = refl;
            },
          ),
          rw missing refl,
        )
