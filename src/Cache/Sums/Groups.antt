-- ===== src/Cache/Sums/Groups.antt =====
-- The first loop of `sum_inputs`: what the groups hold together is what the inputs hold.
use token_plugin.Prelude.{
  ℕ, ◌≡◌, refl, ap, sym, ◌∙◌, ◌≢◌, Bool, true, false, Option, none, some, List, [], ◌∷◌, ◌++◌,
  arith, ◌==◌, if◌then◌else◌, Bool-cases, inl, inr, All, add, contains,
}
use token_plugin.Text.{Text, text_eq, text_eq_iff, text_eq→eq}
use token_plugin.Amounts.Pairs.{Utxos, IsDistinct, pay, plus_option, amount_of, add-IsDistinct}
use token_plugin.Cache.{Input, add_seq_no, group_inputs}
use token_plugin.Ledger.{Ledger, utxos, owed, names, input_eq, AreDistinct}

abbrev pub IsGroup : Text × List ℕ → Type 0
IsGroup (a, s) = IsDistinct s × (s ≢ [])

abbrev pub group_pay : Ledger → List (Text × List ℕ) → Option ℕ
group_pay v [] = some 0
group_pay v ((a, s) ∷ d) = plus_option (pay (utxos v a) s) (group_pay v d)

append-ne-nil : (s : List ℕ) (n : ℕ) → s ++ n ∷ [] ≢ []
append-ne-nil [] n = λ e. cc e
append-ne-nil (x ∷ s) n = λ e. cc e

add-ne-nil : (s : List ℕ) (n : ℕ) → s ≢ [] → add n s ≢ []
add-ne-nil s n h = elim (Bool-cases (contains n s)) [
  | inl old ↦ rw old h
  | inr new ↦ rw new (append-ne-nil s n)
]

add_seq_no-IsGroup :
    (d : List (Text × List ℕ)) (a : Text) (n : ℕ) → All IsGroup d → All IsGroup (add_seq_no d a n)
unfolding add_seq_no
add_seq_no-IsGroup [] a n g = (((refl, tt), λ e. cc e), tt)
add_seq_no-IsGroup ((k, s) ∷ d) a n g = elim (Bool-cases (text_eq k a)) [
  | inl same ↦ rw same ((add-IsDistinct n s g.0.0, add-ne-nil s n g.0.1), g.1)
  | inr differs ↦ rw differs (g.0, add_seq_no-IsGroup d a n g.1)
]

pub group_inputs-IsGroup :
    (is : List Input) (d : List (Text × List ℕ)) → All IsGroup d → All IsGroup (group_inputs is d)
unfolding group_inputs
group_inputs-IsGroup [] d g = g
group_inputs-IsGroup (i ∷ is) d g =
    group_inputs-IsGroup is _ (add_seq_no-IsGroup d i.address i.seq_no g)

plus_comm : (x y : Option ℕ) → plus_option x y ≡ plus_option y x
plus_comm none none = refl
plus_comm none (some b) = refl
plus_comm (some a) none = refl
plus_comm (some a) (some b) = ap some (omega arith)

plus_assoc : (x y z : Option ℕ) → plus_option (plus_option x y) z ≡ plus_option x (plus_option y z)
plus_assoc none y z = refl
plus_assoc (some a) none z = refl
plus_assoc (some a) (some b) none = refl
plus_assoc (some a) (some b) (some c) = ap some (omega arith)

plus_option_zero : (x : Option ℕ) → plus_option x (some 0) ≡ x
plus_option_zero none = refl
plus_option_zero (some a) = ap some (omega arith)

plus_left_comm :
    (x y z : Option ℕ) → plus_option x (plus_option y z) ≡ plus_option y (plus_option x z)
plus_left_comm x y z =
    sym (plus_assoc x y z) ∙ ap (λ w. plus_option w z) (plus_comm x y) ∙ plus_assoc y x z

pay-append :
    (ps : Utxos) (s : List ℕ) (n : ℕ)
    → pay ps (s ++ n ∷ []) ≡ plus_option (amount_of n ps) (pay ps s)
pay-append ps [] n = refl
pay-append ps (m ∷ s) n =
    ap (plus_option (amount_of m ps)) (pay-append ps s n)
    ∙ plus_left_comm (amount_of m ps) (amount_of n ps) (pay ps s)

-- The output is in one of the groups.
abbrev has : List (Text × List ℕ) → Text → ℕ → Bool
has [] a n = false
has ((k, s) ∷ d) a n = if text_eq k a then contains n s else has d a n

group_pay-add_seq_no :
    (v : Ledger) (d : List (Text × List ℕ)) (a : Text) (n : ℕ)
    → has d a n ≡ false
    → group_pay v (add_seq_no d a n) ≡ plus_option (amount_of n (utxos v a)) (group_pay v d)
unfolding add_seq_no
group_pay-add_seq_no v [] a n h =
    ap (λ o. plus_option o (some 0)) (plus_option_zero (amount_of n (utxos v a)))
group_pay-add_seq_no v ((k, s) ∷ d) a n h = elim (Bool-cases (text_eq k a)) [
  | inl same ↦
      let new : contains n s ≡ false = rw same at h in
      rw same (
        rw new (
          rw (text_eq→eq k a same) (
            ap (λ o. plus_option o (group_pay v d)) (pay-append (utxos v a) s n)
            ∙ plus_assoc (amount_of n (utxos v a)) (pay (utxos v a) s) (group_pay v d))))
  | inr differs ↦
      let old : has d a n ≡ false = rw differs at h in
      rw differs (
        ap (plus_option (pay (utxos v k) s)) (group_pay-add_seq_no v d a n old)
        ∙ plus_left_comm (pay (utxos v k) s) (amount_of n (utxos v a)) (group_pay v d))
]

contains-add :
    (k n : ℕ) (s : List ℕ) → contains k s ≡ false → (n == k) ≡ false → contains k (add n s) ≡ false
contains-add k n s h e = elim (Bool-cases (contains n s)) [
  | inl old ↦ rw old h
  | inr new ↦ rw new (go s h)
]
  where
    go : (t : List ℕ) → contains k t ≡ false → contains k (t ++ n ∷ []) ≡ false
    go [] p = ground arith
    go (x ∷ t) p = ground (arith, go t)

same_address : (k a c : Text) → text_eq k a ≡ true → text_eq k c ≡ true → text_eq a c ≡ true
same_address k a c p q = (text_eq_iff a c).1 (sym (text_eq→eq k a p) ∙ text_eq→eq k c q)

-- Another output than the one added stays out.
has-add_seq_no :
    (d : List (Text × List ℕ)) (i j : Input)
    → has d j.address j.seq_no ≡ false
    → input_eq i j ≡ false
    → has (add_seq_no d i.address i.seq_no) j.address j.seq_no ≡ false
unfolding add_seq_no
has-add_seq_no [] i j h e = ground arith
has-add_seq_no ((k, s) ∷ d) i j h e = elim (Bool-cases (text_eq k i.address)) [
  | inl same ↦ rw same (elim (Bool-cases (text_eq k j.address)) [
    | inl here ↦ rw here (
        contains-add j.seq_no i.seq_no s (rw here at h)
          (rw (same_address k i.address j.address same here) at e))
    | inr there ↦ rw there (rw there at h)
  ])
  | inr differs ↦ rw differs (elim (Bool-cases (text_eq k j.address)) [
    | inl here ↦ rw here (rw here at h)
    | inr there ↦ rw there (has-add_seq_no d i j (rw there at h) e)
  ])
]

-- None of the inputs is in a group yet.
abbrev AreNew : List (Text × List ℕ) → List Input → Type 0
AreNew d [] = Unit
AreNew d (i ∷ is) = (has d i.address i.seq_no ≡ false) × AreNew d is

AreNew-add_seq_no :
    (d : List (Text × List ℕ)) (i : Input) (is : List Input)
    → AreNew d is
    → names i is ≡ false
    → AreNew (add_seq_no d i.address i.seq_no) is
AreNew-add_seq_no d i [] h e = tt
AreNew-add_seq_no d i (j ∷ is) h e = elim (Bool-cases (input_eq i j)) [
  | inl same ↦ cc (rw same at e)
  | inr differs ↦ (has-add_seq_no d i j h.0 differs, AreNew-add_seq_no d i is h.1 (rw differs at e))
]

AreNew-nil : (is : List Input) → AreNew [] is
AreNew-nil [] = tt
AreNew-nil (i ∷ is) = (refl, AreNew-nil is)

group_pay-from :
    (v : Ledger) (is : List Input) (d : List (Text × List ℕ))
    → AreNew d is
    → AreDistinct is
    → group_pay v (group_inputs is d) ≡ plus_option (owed v is) (group_pay v d)
unfolding group_inputs
group_pay-from v [] d new distinct =
    sym (plus_comm (some 0) (group_pay v d) ∙ plus_option_zero (group_pay v d))
group_pay-from v (i ∷ is) d new distinct =
    group_pay-from v is (add_seq_no d i.address i.seq_no)
      (AreNew-add_seq_no d i is new.1 distinct.0) distinct.1
    ∙ ap (plus_option (owed v is)) (group_pay-add_seq_no v d i.address i.seq_no new.0)
    ∙ plus_left_comm (owed v is) (amount_of i.seq_no (utxos v i.address)) (group_pay v d)
    ∙ sym (plus_assoc (amount_of i.seq_no (utxos v i.address)) (owed v is) (group_pay v d))

pub group_pay-group_inputs :
    (v : Ledger) (is : List Input) → AreDistinct is → group_pay v (group_inputs is []) ≡ owed v is
group_pay-group_inputs v is distinct =
    group_pay-from v is [] (AreNew-nil is) distinct ∙ plus_option_zero (owed v is)
