-- ===== src/Text/Dict.antt =====
-- Python's dictionaries with texts as keys: lists of pairs in the order in which the keys came.
use token_plugin.Prelude.{
  ◌≡◌, refl, ap, sym, ◌∙◌, Bool, true, false, Option, none, some, List, [], ◌∷◌, if◌then◌else◌,
  Bool-cases, inl, inr,
}
use token_plugin.Text.{Text, text_eq, text_eq_iff, text_eq→eq}

-- `d.get(k)`
unfoldable pub get {ℓ} : {A : Type ℓ} → Text → List (Text × A) → Option A
get k [] = none
get k ((j, x) ∷ d) = if text_eq j k then some x else get k d

-- `d[k] = x`
unfoldable pub assign {ℓ} : {A : Type ℓ} → Text → A → List (Text × A) → List (Text × A)
assign k x [] = (k, x) ∷ []
assign k x ((j, y) ∷ d) = if text_eq j k then (j, x) ∷ d else (j, y) ∷ assign k x d

-- `k in d`
unfoldable pub has_key {ℓ} : {A : Type ℓ} → Text → List (Text × A) → Bool
has_key k [] = false
has_key k ((j, y) ∷ d) = if text_eq j k then true else has_key k d

-- `d.update(r)`, of values that are seen as those of `d`.
unfoldable pub update_with {ℓ κ} :
    {A : Type ℓ} {B : Type κ} → (B → A) → List (Text × A) → List (Text × B) → List (Text × A)
unfolding assign
update_with f d [] = d
update_with f d ((k, x) ∷ r) = update_with f (assign k (f x) d) r

pub get-assign {ℓ} :
    {A : Type ℓ} (k j : Text) (x : A) (d : List (Text × A))
    → get j (assign k x d) ≡ (if text_eq k j then some x else get j d)
unfolding get assign
get-assign k j x [] = refl
get-assign k j x ((i, y) ∷ d) = elim (Bool-cases (text_eq i k)) [
  | inl same ↦ rw same (
      ap (λ t. if text_eq t j then some x else get j d) (text_eq→eq i k same)
      ∙ found (text_eq k j) (ap (λ t. text_eq t j) (text_eq→eq i k same)))
  | inr differs ↦ rw differs (elim (Bool-cases (text_eq i j)) [
    | inl here ↦ elim (Bool-cases (text_eq k j)) [
      | inl also ↦
          cc (differs, (text_eq_iff i k).1 (text_eq→eq i j here ∙ sym (text_eq→eq k j also)))
      | inr other ↦ rw here (rw other refl)
    ]
    | inr elsewhere ↦ rw elsewhere (get-assign k j x d)
  ])
]
  where
    found :
        (b : Bool)
        → text_eq i j ≡ b
        → (if b then some x else get j d)
          ≡ (if b then some x else (if text_eq i j then some y else get j d))
    found true e = refl
    found false e = rw e refl

-- A key that is not updated keeps its value.
pub get-update_out {ℓ κ} :
    {A : Type ℓ} {B : Type κ} (f : B → A) (j : Text) (d : List (Text × A)) (r : List (Text × B))
    → has_key j r ≡ false
    → get j (update_with f d r) ≡ get j d
unfolding update_with has_key
get-update_out f j d [] h = refl
get-update_out f j d ((k, x) ∷ r) h = elim (Bool-cases (text_eq k j)) [
  | inl same ↦ cc (rw same at h)
  | inr differs ↦
      get-update_out f j (assign k (f x) d) r (rw differs at h)
      ∙ get-assign k j (f x) d
      ∙ rw differs refl
]

-- A key that is updated has one of the new values.
pub get-update_in {ℓ κ} :
    {A : Type ℓ} {B : Type κ} (f : B → A) (j : Text) (d : List (Text × A)) (r : List (Text × B))
    → has_key j r ≡ true
    → (x : B) × (get j (update_with f d r) ≡ some (f x))
unfolding update_with has_key
get-update_in f j d [] h = cc h
get-update_in f j d ((k, x) ∷ r) h = elim (Bool-cases (has_key j r)) [
  | inl later ↦ get-update_in f j (assign k (f x) d) r later
  | inr last ↦ elim (Bool-cases (text_eq k j)) [
    | inl same ↦
        (x, get-update_out f j (assign k (f x) d) r last ∙ get-assign k j (f x) d ∙ rw same refl)
    | inr differs ↦ cc (last, rw differs at h)
  ]
]
