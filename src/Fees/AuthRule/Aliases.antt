-- ===== src/Fees/AuthRule/Aliases.antt =====
-- A rule is accepted exactly if the fees have every alias that it names, at any depth.
use token_plugin.Prelude.{
  ◌≡◌, refl, sym, ◌∙◌, ◌↔◌, true, false, Option, none, some, List, [], ◌∷◌, ◌++◌, ◌||◌, arith,
  is_empty, All, Bool-cases, inl, inr,
}
use token_plugin.Text.{Text}
use token_plugin.Errors.{Result, ok, err, ◌>>◌}
use token_plugin.Fees.SetFees.{Fees}
use token_plugin.Fees.AuthRule.{
  Constraint, forbidden, role, combined, Constraints, nil, cons, has_alias, check_alias,
  validate_metadata, validate_each, fees_specific_validation, rules_specific_validation,
}

-- The fees have the alias, or there is none.
abbrev pub IsKnown : Fees → Option Text → Type 0
IsKnown d none = Unit
IsKnown d (some a) = (is_empty a || has_alias a d) ≡ true

-- Every role constraint of the tree has a known alias.
abbrev mutual
  pub AreKnown : Fees → Constraint → Type 0
  AreKnown d forbidden = Unit
  AreKnown d (role alias) = IsKnown d alias
  AreKnown d (combined cs) = AreAllKnown d cs

  pub AreAllKnown : Fees → Constraints → Type 0
  AreAllKnown d nil = Unit
  AreAllKnown d (cons c cs) = AreKnown d c × AreAllKnown d cs

append-is_empty : (ws : List Text) (a : Text) → is_empty (ws ++ a ∷ []) ≡ false
append-is_empty [] a = refl
append-is_empty (w ∷ ws) a = refl

check_alias_iff :
    (d : Fees) (alias : Option Text) (ws : List Text)
    → (is_empty (check_alias d alias ws) ≡ true) ↔ ((is_empty ws ≡ true) × IsKnown d alias)
unfolding check_alias
check_alias_iff d none ws = (λ h. (h, tt), λ h. h.0)
check_alias_iff d (some a) ws =
    (λ h. ground (arith, append-is_empty ws a), λ h. ground (arith, append-is_empty ws a))

mutual
  unfolding validate_metadata validate_each

  validate_metadata_iff :
      (d : Fees) (c : Constraint) (ws : List Text)
      → (is_empty (validate_metadata d c ws) ≡ true) ↔ ((is_empty ws ≡ true) × AreKnown d c)
  validate_metadata_iff d forbidden ws = (λ h. (h, tt), λ h. h.0)
  validate_metadata_iff d (role alias) ws = check_alias_iff d alias ws
  validate_metadata_iff d (combined cs) ws = validate_each_iff d cs ws

  validate_each_iff :
      (d : Fees) (cs : Constraints) (ws : List Text)
      → (is_empty (validate_each d cs ws) ≡ true) ↔ ((is_empty ws ≡ true) × AreAllKnown d cs)
  validate_each_iff d nil ws = (λ h. (h, tt), λ h. h.0)
  validate_each_iff d (cons c cs) ws = (
    λ h.
        let (first, rest) = (validate_each_iff d cs (validate_metadata d c ws)).0 h in
        let (start, known) = (validate_metadata_iff d c ws).0 first in (start, (known, rest)),
    λ h.
        (validate_each_iff d cs (validate_metadata d c ws)).1
          ((validate_metadata_iff d c ws).1 (h.0, h.1.0), h.1.1),
  )

fees_specific_validation_iff :
    (d : Fees) (c : Constraint) → (fees_specific_validation d c ≡ ok tt) ↔ AreKnown d c
unfolding fees_specific_validation
fees_specific_validation_iff d c = elim (Bool-cases (is_empty (validate_metadata d c []))) [
  | inl clean ↦ rw clean (λ h. ((validate_metadata_iff d c []).0 clean).1, λ h. refl)
  | inr wrong ↦
      rw wrong (λ h. cc h, λ h. cc (sym wrong ∙ (validate_metadata_iff d c []).1 (refl, h)))
]

split_first : (r rest : Result (Unit {0})) → (r >> rest) ≡ ok tt → (r ≡ ok tt) × (rest ≡ ok tt)
split_first (ok x) rest h = (refl, h)
split_first (err e) rest h = cc h

rules_iff :
    (d : Fees) (cs : List Constraint)
    → (rules_specific_validation d cs ≡ ok tt) ↔ All (AreKnown d) cs
unfolding rules_specific_validation
rules_iff d [] = (λ h. tt, λ h. refl)
rules_iff d (c ∷ cs) = (
  λ h.
      let (first, rest) =
        split_first (fees_specific_validation d c) (rules_specific_validation d cs) h in
      ((fees_specific_validation_iff d c).0 first, (rules_iff d cs).0 rest),
  λ h. rw ((fees_specific_validation_iff d c).1 h.0) ((rules_iff d cs).1 h.1),
)

-- AUTH_RULE and AUTH_RULES are accepted exactly if the current fees have every alias that a role
-- constraint of the rules names, at any depth; forbidden constraints name none.
pub rules_specific_validation_iff :
    (d : Fees) (c : Constraint) (cs : List Constraint)
    → ((fees_specific_validation d c ≡ ok tt) ↔ AreKnown d c)
      × ((rules_specific_validation d cs ≡ ok tt) ↔ All (AreKnown d) cs)
rules_specific_validation_iff d c cs = (fees_specific_validation_iff d c, rules_iff d cs)
