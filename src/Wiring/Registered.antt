-- ===== src/Wiring/Registered.antt =====
-- Which handlers a request has once both plugins are there.
use token_plugin.Prelude.{
  ◌≡◌, ◌≢◌, refl, ap, sym, ◌∙◌, Bool, true, false, not, ◌||◌, List, [], ◌∷◌, ◌++◌, is_empty,
  if◌then◌else◌, arith, Bool-cases, inl, inr,
}
use token_plugin.Text.{Text, text_eq, text_eq_refl, text_eq→eq}
use token_plugin.Errors.{Exn, ok, err}
use token_plugin.Authn.Dispatch.{xfer_public}
use token_plugin.Wiring.{
  Handler, set_fees_handler, set_fees_handler_093, xfer_fee_handler, domain_fee_handler,
  fee_txn_catchup_handler, auth_rule_fee_handler, auth_rules_fee_handler, Manager, version_093,
  register, register_each, replace_handlers, fees_register_req_handlers,
}

abbrev pub has_text : Text → List Text → Bool
has_text t [] = false
has_text t (u ∷ us) = text_eq u t || has_text t us

-- A set, as a list.
abbrev pub AreOnce : List Text → Type 0
AreOnce [] = Unit
AreOnce (t ∷ ts) = (has_text t ts ≡ false) × AreOnce ts

-- What plenum documents: a handler is added to those of its type, a version of its own is kept apart,
-- a type that is removed has none; and only a handler of the domain ledger changes its types.
pub record IsManager (wm : Manager) : Type 0 where
  pub handlers_of : wm.State → Text → List Handler
  pub handlers-register :
      (w : wm.State) (h : Handler) (t u : Text)
      → handlers_of (wm.register_for w h t) u
        ≡ (if text_eq t u then handlers_of w u ++ h ∷ [] else handlers_of w u)
  pub handlers-version :
      (w : wm.State) (h : Handler) (v u : Text)
      → handlers_of (wm.register_with_version w h v) u ≡ handlers_of w u
  pub handlers-remove :
      (w : wm.State) (t u : Text)
      → handlers_of (wm.remove_req_handler w t) u ≡ (if text_eq t u then [] else handlers_of w u)
  pub has-handlers : (w : wm.State) (t : Text) → wm.has_type w t ≡ not (is_empty (handlers_of w t))
  pub types_once : (w : wm.State) → AreOnce (wm.domain_types w)
  pub xfer_type : wm.txn_type xfer_fee_handler ≡ xfer_public
  pub types-set_fees :
      (w : wm.State)
      → wm.domain_types (wm.register_for w set_fees_handler (wm.txn_type set_fees_handler))
        ≡ wm.domain_types w
  pub types-version :
      (w : wm.State) (h : Handler) (v : Text)
      → wm.domain_types (wm.register_with_version w h v) ≡ wm.domain_types w
  pub types-xfer :
      (w : wm.State)
      → wm.domain_types (
          wm.register_for
            (wm.remove_req_handler w xfer_public)
            xfer_fee_handler
            (wm.txn_type xfer_fee_handler))
        ≡ wm.domain_types w

module _ (wm : Manager) (laws : IsManager wm) where
  -- A type of none of the other handlers that the fees plugin registers.
  pub record IsApart (u : Text) : Type 0 where
    pub set_fees : text_eq (wm.txn_type set_fees_handler) u ≡ false
    pub catchup : text_eq (wm.txn_type fee_txn_catchup_handler) u ≡ false
    pub auth_rule : text_eq (wm.txn_type auth_rule_fee_handler) u ≡ false
    pub auth_rules : text_eq (wm.txn_type auth_rules_fee_handler) u ≡ false

  other_type :
      (w : wm.State) (h : Handler) (t u : Text)
      → text_eq t u ≡ false
      → laws.handlers_of (wm.register_for w h t) u ≡ laws.handlers_of w u
  other_type w h t u apart = laws.handlers-register w h t u ∙ rw apart refl

  not_each :
      (w : wm.State) (ts : List Text) (u : Text)
      → has_text u ts ≡ false
      → laws.handlers_of (register_each wm w ts) u ≡ laws.handlers_of w u
  unfolding register_each
  not_each w [] u h = refl
  not_each w (t ∷ ts) u h =
      not_each (wm.register_for w domain_fee_handler t) ts u (ground (arith, h))
      ∙ other_type w domain_fee_handler t u (ground (arith, h))

  each_once :
      (w : wm.State) (ts : List Text) (u : Text)
      → AreOnce ts
      → has_text u ts ≡ true
      → laws.handlers_of (register_each wm w ts) u ≡ laws.handlers_of w u ++ domain_fee_handler ∷ []
  unfolding register_each
  each_once w [] u once h = cc h
  each_once w (t ∷ ts) u once h = elim (Bool-cases (text_eq t u)) [
    | inl here ↦
        let same : t ≡ u = text_eq→eq t u here in
        not_each (wm.register_for w domain_fee_handler t) ts u
          (ap (λ x. has_text x ts) (sym same) ∙ once.0)
        ∙ laws.handlers-register w domain_fee_handler t u
        ∙ rw here refl
    | inr later ↦
        each_once (wm.register_for w domain_fee_handler t) ts u once.1 (ground (arith, h, later))
        ∙ ap (λ l. l ++ domain_fee_handler ∷ []) (other_type w domain_fee_handler t u later)
  ]

  last_three :
      (w : wm.State) (u : Text)
      → IsApart u
      → laws.handlers_of
          (register wm
            (register wm (register wm w fee_txn_catchup_handler) auth_rule_fee_handler)
            auth_rules_fee_handler)
          u
        ≡ laws.handlers_of w u
  unfolding register
  last_three w u apart =
      other_type _ auth_rules_fee_handler (wm.txn_type auth_rules_fee_handler) u apart.auth_rules
      ∙ other_type _ auth_rule_fee_handler (wm.txn_type auth_rule_fee_handler) u apart.auth_rule
      ∙ other_type w fee_txn_catchup_handler (wm.txn_type fee_txn_catchup_handler) u apart.catchup

  abbrev with_xfer_fee : wm.State → wm.State
  with_xfer_fee w =
      wm.register_for (wm.remove_req_handler w xfer_public) xfer_fee_handler
        (wm.txn_type xfer_fee_handler)

  replaced :
      (w : wm.State) (u : Text)
      → IsApart u
      → laws.handlers_of (replace_handlers wm w) u
        ≡ laws.handlers_of (register_each wm (with_xfer_fee w) (wm.domain_types w)) u
  unfolding replace_handlers register
  replaced w u apart =
      last_three _ u apart
      ∙ ap (λ ts. laws.handlers_of (register_each wm (with_xfer_fee w) ts) u) (laws.types-xfer w)

  xfer_replaced :
      (w : wm.State)
      → IsApart xfer_public
      → has_text xfer_public (wm.domain_types w) ≡ false
      → laws.handlers_of (replace_handlers wm w) xfer_public ≡ xfer_fee_handler ∷ []
  xfer_replaced w apart other =
      let emptied : laws.handlers_of (wm.remove_req_handler w xfer_public) xfer_public ≡ [] =
        laws.handlers-remove w xfer_public xfer_public ∙ rw (text_eq_refl xfer_public) refl in
      replaced w xfer_public apart
      ∙ not_each (with_xfer_fee w) (wm.domain_types w) xfer_public other
      ∙ laws.handlers-register (wm.remove_req_handler w xfer_public) xfer_fee_handler
          (wm.txn_type xfer_fee_handler) xfer_public
      ∙ rw (ap (λ t. text_eq t xfer_public) laws.xfer_type ∙ text_eq_refl xfer_public)
          (ap (λ l. l ++ xfer_fee_handler ∷ []) emptied)

  domain_replaced :
      (w : wm.State) (u : Text)
      → IsApart u
      → has_text u (wm.domain_types w) ≡ true
      → text_eq xfer_public u ≡ false
      → laws.handlers_of (replace_handlers wm w) u ≡ laws.handlers_of w u ++ domain_fee_handler ∷ []
  domain_replaced w u apart there other =
      replaced w u apart
      ∙ each_once (with_xfer_fee w) (wm.domain_types w) u (laws.types_once w) there
      ∙ ap (λ l. l ++ domain_fee_handler ∷ [])
          (other_type (wm.remove_req_handler w xfer_public) xfer_fee_handler
              (wm.txn_type xfer_fee_handler) u (ap (λ t. text_eq t u) laws.xfer_type ∙ other)
            ∙ laws.handlers-remove w xfer_public u
            ∙ rw other refl)

  other_than_xfer :
      (ts : List Text) (u : Text)
      → has_text xfer_public ts ≡ false
      → has_text u ts ≡ true
      → text_eq xfer_public u ≡ false
  other_than_xfer ts u out here = elim (Bool-cases (text_eq xfer_public u)) [
    | inl same ↦
        absurd
          (true_ne (sym (ap (λ x. has_text x ts) (text_eq→eq xfer_public u same) ∙ here) ∙ out))
    | inr other ↦ other
  ]
    where
      true_ne : true ≢ false
      true_ne e = cc e

  -- The state once the fees of the config ledger are registered.
  abbrev with_set_fees : wm.State → wm.State
  with_set_fees w =
      wm.register_with_version (wm.register_for w set_fees_handler (wm.txn_type set_fees_handler))
        set_fees_handler_093 version_093

  set_fees_other :
      (w : wm.State) (u : Text)
      → IsApart u
      → laws.handlers_of (with_set_fees w) u ≡ laws.handlers_of w u
  set_fees_other w u apart =
      laws.handlers-version _ set_fees_handler_093 version_093 u
      ∙ other_type w set_fees_handler (wm.txn_type set_fees_handler) u apart.set_fees

  set_fees_types : (w : wm.State) → wm.domain_types (with_set_fees w) ≡ wm.domain_types w
  set_fees_types w = laws.types-version _ set_fees_handler_093 version_093 ∙ laws.types-set_fees w

  -- Without a handler of transfers the fees plugin is not integrated: an exception is raised. With one
  -- it is; a transfer then has the handler with fees and no other, and each type of the domain ledger
  -- has the handlers it had and, last, the one that charges fees. The type of a transfer is apart
  -- from the others, as is each type asked about, and not of the domain ledger.
  pub fees_register_req_handlers_lem :
      (w : wm.State)
      → IsApart xfer_public
      → has_text xfer_public (wm.domain_types w) ≡ false
      → (laws.handlers_of w xfer_public ≡ []
          → fees_register_req_handlers wm w ≡ err Exn.plain_exception)
        × (laws.handlers_of w xfer_public ≢ []
            → (w' : wm.State) × (fees_register_req_handlers wm w ≡ ok w')
              × (laws.handlers_of w' xfer_public ≡ xfer_fee_handler ∷ [])
              × ((u : Text)
                  → IsApart u
                  → has_text u (wm.domain_types w) ≡ true
                  → laws.handlers_of w' u ≡ laws.handlers_of w u ++ domain_fee_handler ∷ []))
  unfolding fees_register_req_handlers register
  fees_register_req_handlers_lem w apart out =
      let before : wm.has_type (with_set_fees w) xfer_public
          ≡ not (is_empty (laws.handlers_of w xfer_public)) =
        laws.has-handlers (with_set_fees w) xfer_public
        ∙ ap (λ l. not (is_empty l)) (set_fees_other w xfer_public apart) in
      let types = set_fees_types w in
      (
        λ missing. rw (before ∙ ap (λ l. not (is_empty l)) missing) refl,
        λ there. (
          replace_handlers wm (with_set_fees w),
          rw (before ∙ not_empty (laws.handlers_of w xfer_public) there) refl,
          xfer_replaced (with_set_fees w) apart (ap (has_text xfer_public) types ∙ out),
          λ u alone within.
              domain_replaced (with_set_fees w) u alone (ap (has_text u) types ∙ within)
                (other_than_xfer (wm.domain_types w) u out within)
              ∙ ap (λ l. l ++ domain_fee_handler ∷ []) (set_fees_other w u alone),
        ),
      )
    where
      not_empty : (l : List Handler) → l ≢ [] → not (is_empty l) ≡ true
      not_empty [] ne = absurd (ne refl)
      not_empty (h ∷ l) ne = refl
