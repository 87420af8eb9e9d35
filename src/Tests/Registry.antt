-- ===== src/Tests/Registry.antt =====
-- A write manager that keeps its handlers in one list, with two types of the domain ledger.
use token_plugin.Prelude.{
  ◌≡◌, ◌≢◌, refl, true, not, List, [], ◌∷◌, ◌++◌, is_empty, if◌then◌else◌, arith,
}
use token_plugin.Text.{Text, text_eq, text_eq_iff}
use token_plugin.Errors.{Exn, ok, err}
use token_plugin.Authn.Dispatch.{mint_public, xfer_public, set_fees}
use token_plugin.Wiring.{
  Handler, xfer_handler, xfer_handler_100, mint_handler, set_fees_handler, set_fees_handler_093,
  xfer_fee_handler, domain_fee_handler, fee_txn_catchup_handler, auth_rule_fee_handler,
  auth_rules_fee_handler, foreign, Manager, fees_register_req_handlers,
}
use token_plugin.Wiring.Registered.{IsManager, IsApart, has_text, fees_register_req_handlers_lem}

abbrev Registry : Type 0
Registry = List (Text × Handler)

abbrev find_all : Registry → Text → List Handler
find_all [] u = []
find_all ((t, h) ∷ w) u = if text_eq t u then h ∷ find_all w u else find_all w u

abbrev without : Registry → Text → Registry
without [] u = []
without ((t, h) ∷ w) u = if text_eq t u then without w u else (t, h) ∷ without w u

abbrev type_of : Handler → Text
type_of xfer_handler = xfer_public
type_of xfer_handler_100 = xfer_public
type_of mint_handler = mint_public
type_of set_fees_handler = set_fees
type_of set_fees_handler_093 = set_fees
type_of xfer_fee_handler = xfer_public
type_of domain_fee_handler = b'1' ∷ []
type_of fee_txn_catchup_handler = b'2' ∷ b'0' ∷ b'0' ∷ b'0' ∷ b'2' ∷ []
type_of auth_rule_fee_handler = b'1' ∷ b'2' ∷ b'0' ∷ []
type_of auth_rules_fee_handler = b'1' ∷ b'2' ∷ b'2' ∷ []
type_of (foreign n) = n ∷ []

abbrev nym_and_attrib : List Text
nym_and_attrib = (b'1' ∷ []) ∷ (b'1' ∷ b'0' ∷ b'0' ∷ []) ∷ []

abbrev pub manager : Manager
manager = record {
  State = Registry;
  txn_type = type_of;
  register_for = λ w h t. w ++ (t, h) ∷ [];
  register_with_version = λ w h v. w;
  remove_req_handler = without;
  has_type = λ w t. not (is_empty (find_all w t));
  domain_types = λ w. nym_and_attrib;
}

pub find_all-append :
    (w : Registry) (h : Handler) (t u : Text)
    → find_all (w ++ (t, h) ∷ []) u ≡ (if text_eq t u then find_all w u ++ h ∷ [] else find_all w u)
find_all-append [] h t u = refl
find_all-append ((s, g) ∷ w) h t u = ground (arith, find_all-append w h t u)

pub find_all-without :
    (w : Registry) (t u : Text)
    → find_all (without w t) u ≡ (if text_eq t u then [] else find_all w u)
find_all-without [] t u = ground arith
find_all-without ((s, g) ∷ w) t u =
    ground (arith, find_all-without w t u, text_eq_iff s t, text_eq_iff t u, text_eq_iff s u)

abbrev pub manager_laws : IsManager manager
unfolding text_eq
manager_laws = record {
  handlers_of = find_all;
  handlers-register = find_all-append;
  handlers-version = λ w h v u. refl;
  handlers-remove = find_all-without;
  has-handlers = λ w t. refl;
  types_once = λ w. (refl, (refl, tt));
  xfer_type = refl;
  types-set_fees = λ w. refl;
  types-version = λ w h v. refl;
  types-xfer = λ w. refl;
}

abbrev token_only : Registry
token_only = (b'1' ∷ [], foreign 1) ∷ (xfer_public, xfer_handler) ∷ []

xfer_public-IsApart : IsApart manager manager_laws xfer_public
unfolding text_eq
xfer_public-IsApart = record {
  set_fees = refl;
  catchup = refl;
  auth_rule = refl;
  auth_rules = refl;
}

fees_register_req_handlers_lem_example :
    (manager_laws.handlers_of token_only xfer_public ≡ []
      → fees_register_req_handlers manager token_only ≡ err Exn.plain_exception)
    × (manager_laws.handlers_of token_only xfer_public ≢ []
        → (w' : Registry) × (fees_register_req_handlers manager token_only ≡ ok w')
          × (manager_laws.handlers_of w' xfer_public ≡ xfer_fee_handler ∷ [])
          × ((u : Text)
              → IsApart manager manager_laws u
              → has_text u nym_and_attrib ≡ true
              → manager_laws.handlers_of w' u
                ≡ manager_laws.handlers_of token_only u ++ domain_fee_handler ∷ []))
unfolding text_eq
fees_register_req_handlers_lem_example =
    fees_register_req_handlers_lem manager manager_laws token_only xfer_public-IsApart refl
