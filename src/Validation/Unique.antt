-- ===== src/Validation/Unique.antt =====
-- What passes the static validation: no output address and no input is named twice.
use token_plugin.Prelude.{
  ◌+◌, ◌≤◌, ◌≡◌, refl, sym, ◌∙◌, ◌↔◌, Bool, true, false, none, some, List, [], ◌∷◌, arith, ◌==◌,
  if◌then◌else◌, length, Bool-cases, inl, inr,
}
use token_plugin.Text.{Text, text_eq}
use token_plugin.Errors.{ok, err}
use token_plugin.Cache.{Input}
use token_plugin.Token.{Payment}
use token_plugin.Ledger.{input_eq, names, AreDistinct}
use token_plugin.Ledger.Fresh.{pays, ArePaidOnce}
use token_plugin.Validation.{Message, Check, ◌or_else◌, seen, set_of, outputs_field, inputs_field}

module _ {A B : Type 0} (eq : B → B → Bool) (key : A → B) where
  abbrev occurs : B → List A → Bool
  occurs k [] = false
  occurs k (x ∷ xs) = if eq k (key x) then true else occurs k xs

  abbrev IsUnique : List A → Type 0
  IsUnique [] = Unit
  IsUnique (x ∷ xs) = (occurs (key x) xs ≡ false) × IsUnique xs

  abbrev AreUnseen : List A → List B → Type 0
  AreUnseen [] s = Unit
  AreUnseen (x ∷ xs) s = (seen eq key (key x) s ≡ false) × AreUnseen xs s

  length-set_of_le : (xs : List A) (s : List B) → length (set_of eq key xs s) ≤ length xs + length s
  unfolding set_of
  length-set_of_le [] s = omega arith
  length-set_of_le (x ∷ xs) s = elim (Bool-cases (seen eq key (key x) s)) [
    | inl old ↦ rw old (omega (arith, length-set_of_le xs s))
    | inr new ↦ rw new (omega (arith, length-set_of_le xs (key x ∷ s)))
  ]

  occurs-AreUnseen :
      (k : B) (xs : List A) (s : List B)
      → AreUnseen xs (k ∷ s)
      → (occurs k xs ≡ false) × AreUnseen xs s
  unfolding seen
  occurs-AreUnseen k [] s h = (refl, tt)
  occurs-AreUnseen k (x ∷ xs) s h = ground (arith, occurs-AreUnseen k xs s)

  AreUnseen-cons :
      (k : B) (xs : List A) (s : List B)
      → occurs k xs ≡ false
      → AreUnseen xs s
      → AreUnseen xs (k ∷ s)
  unfolding seen
  AreUnseen-cons k [] s h u = tt
  AreUnseen-cons k (x ∷ xs) s h u = ground (arith, AreUnseen-cons k xs s)

  set_of-IsUnique :
      (xs : List A) (s : List B)
      → length xs + length s ≡ length (set_of eq key xs s)
      → IsUnique xs × AreUnseen xs s
  unfolding set_of
  set_of-IsUnique [] s h = (tt, tt)
  set_of-IsUnique (x ∷ xs) s h = elim (Bool-cases (seen eq key (key x) s)) [
    | inl old ↦ absurd (omega (arith, length-set_of_le xs s, rw old at h))
    | inr new ↦
        let (unique, unseen) = set_of-IsUnique xs (key x ∷ s) (omega (arith, rw new at h)) in
        let (fresh, rest) = occurs-AreUnseen (key x) xs s unseen in ((fresh, unique), (new, rest))
  ]

  length-set_of :
      (xs : List A) (s : List B)
      → IsUnique xs
      → AreUnseen xs s
      → length xs + length s ≡ length (set_of eq key xs s)
  unfolding set_of
  length-set_of [] s u n = omega arith
  length-set_of (x ∷ xs) s u n =
      rw n.0 (omega (arith, length-set_of xs (key x ∷ s) u.1 (AreUnseen-cons (key x) xs s u.0 n.1)))

  AreUnseen-nil : (xs : List A) → AreUnseen xs []
  unfolding seen
  AreUnseen-nil [] = tt
  AreUnseen-nil (x ∷ xs) = (refl, AreUnseen-nil xs)

  -- As many keys as entries: no two entries have one key.
  set_of_iff : (xs : List A) → ((length xs == length (set_of eq key xs [])) ≡ true) ↔ IsUnique xs
  set_of_iff xs = (
    λ h. (set_of-IsUnique xs [] ((ground arith))).0,
    λ u. let e = length-set_of xs [] u (AreUnseen-nil xs) in ground arith,
  )

occurs-pays :
    (a : Text) (os : List Payment) → occurs text_eq (λ (o : Payment). o.address) a os ≡ pays a os
occurs-pays a [] = refl
occurs-pays a (o ∷ os) = ground (arith, occurs-pays a os)

occurs-names : (i : Input) (is : List Input) → occurs input_eq (λ (j : Input). j) i is ≡ names i is
occurs-names i [] = refl
occurs-names i (j ∷ is) = ground (arith, occurs-names i is)

IsUnique-ArePaidOnce :
    (os : List Payment) → IsUnique text_eq (λ (o : Payment). o.address) os ↔ ArePaidOnce os
IsUnique-ArePaidOnce [] = (λ h. h, λ h. h)
IsUnique-ArePaidOnce (o ∷ os) = (
  λ h. (sym (occurs-pays o.address os) ∙ h.0, (IsUnique-ArePaidOnce os).0 h.1),
  λ h. (occurs-pays o.address os ∙ h.0, (IsUnique-ArePaidOnce os).1 h.1),
)

IsUnique-AreDistinct : (is : List Input) → IsUnique input_eq (λ (j : Input). j) is ↔ AreDistinct is
IsUnique-AreDistinct [] = (λ h. h, λ h. h)
IsUnique-AreDistinct (i ∷ is) = (
  λ h. (sym (occurs-names i is) ∙ h.0, (IsUnique-AreDistinct is).0 h.1),
  λ h. (occurs-names i is ∙ h.0, (IsUnique-AreDistinct is).1 h.1),
)

pub passes_both :
    (c : Check) (b : Bool) (m : Message)
    → ((c or_else (if b then ok none else ok (some m))) ≡ ok none) ↔ ((c ≡ ok none) × (b ≡ true))
passes_both (ok (some e)) b m = (λ h. cc h, λ h. cc (h.0))
passes_both (ok none) b m = (λ h. ground arith, λ h. ground arith)
passes_both (err e) b m = (λ h. cc h, λ h. cc (h.0))

-- The outputs field passes exactly what its base class passes and pays no address twice.
pub outputs_field_iff :
    (base : List Payment → Check) (val : List Payment)
    → (outputs_field base val ≡ ok none) ↔ ((base val ≡ ok none) × ArePaidOnce val)
unfolding outputs_field
outputs_field_iff base val =
    let both = passes_both (base val) _ Message.not_unique_address in
    let unique = set_of_iff text_eq (λ (o : Payment). o.address) val in
    (
      λ h. ((both.0 h).0, (IsUnique-ArePaidOnce val).0 (unique.0 (both.0 h).1)),
      λ h. both.1 (h.0, unique.1 ((IsUnique-ArePaidOnce val).1 h.1)),
    )

-- The inputs field passes exactly what its base class passes and names no output twice.
pub inputs_field_iff :
    (base : List Input → Check) (val : List Input)
    → (inputs_field base val ≡ ok none) ↔ ((base val ≡ ok none) × AreDistinct val)
unfolding inputs_field
inputs_field_iff base val =
    let both = passes_both (base val) _ Message.not_unique_input in
    let unique = set_of_iff input_eq (λ (i : Input). i) val in
    (
      λ h. ((both.0 h).0, (IsUnique-AreDistinct val).0 (unique.0 (both.0 h).1)),
      λ h. both.1 (h.0, unique.1 ((IsUnique-AreDistinct val).1 h.1)),
    )
