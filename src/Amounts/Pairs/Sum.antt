-- ===== src/Amounts/Pairs/Sum.antt =====
-- `sum_amounts` on the written form sums the amounts of the numbers asked for.
use token_plugin.Prelude.{
  ℕ, ◌+◌, ◌≡◌, refl, ap, ◌∙◌, true, false, Option, none, some, List, [], ◌∷◌, ◌++◌, arith, ◌==◌,
  ◌||◌, ==_iff, if◌then◌else◌, contains, remove, add, is_empty, Bool-cases, inl, inr,
}
use token_plugin.Text.{Text}
use token_plugin.Text.Decimal.{str, int-str}
use token_plugin.Errors.{Exn, Result, ok, err, ◌>>=◌}
use token_plugin.Amounts.{sum_from, sum_amounts}
use token_plugin.Amounts.Pairs.Encode.{Utxos, encode, holding}

-- A list that stands for a set of numbers.
abbrev pub IsDistinct : List ℕ → Type 0
IsDistinct [] = Unit
IsDistinct (n ∷ s) = (contains n s ≡ false) × IsDistinct s

-- What the output with the number holds.
abbrev pub amount_of : ℕ → Utxos → Option ℕ
amount_of n [] = none
amount_of n ((m, a) ∷ r) = if m == n then some a else amount_of n r

abbrev pub plus : ℕ → Option ℕ → Option ℕ
plus a none = none
plus a (some t) = some (a + t)

abbrev pub plus_option : Option ℕ → Option ℕ → Option ℕ
plus_option none o = none
plus_option (some a) o = plus a o

pub plus_option-some :
    (x y : Option ℕ) (t : ℕ)
    → plus_option x y ≡ some t
    → (a : ℕ) × (b : ℕ) × (x ≡ some a) × (y ≡ some b) × (t ≡ a + b)
plus_option-some none y t h = cc
plus_option-some (some a) none t h = cc
plus_option-some (some a) (some b) t h = (a, b, refl, refl, ground arith)

-- The sum of what the outputs with the numbers hold; `none` if one of them is not there.
abbrev pub pay : Utxos → List ℕ → Option ℕ
pay ps [] = some 0
pay ps (n ∷ s) = plus_option (amount_of n ps) (pay ps s)

contains-remove : (k n : ℕ) (s : List ℕ) → contains k s ≡ false → contains k (remove n s) ≡ false
contains-remove k n [] h = refl
contains-remove k n (x ∷ s) h = ground (arith, contains-remove k n s)

remove-IsDistinct : (n : ℕ) (s : List ℕ) → IsDistinct s → IsDistinct (remove n s)
remove-IsDistinct n [] h = tt
remove-IsDistinct n (x ∷ s) h = ground (arith, remove-IsDistinct n s h.1, contains-remove x n s h.0)

plus-plus : (a b : ℕ) (o : Option ℕ) → plus a (plus b o) ≡ plus b (plus a o)
plus-plus a b none = refl
plus-plus a b (some t) = ap some (omega arith)

plus_option-plus :
    (x : Option ℕ) (b : ℕ) (o : Option ℕ) → plus_option x (plus b o) ≡ plus b (plus_option x o)
plus_option-plus none b o = refl
plus_option-plus (some a) b o = plus-plus a b o

pay-cons :
    (m a : ℕ) (r : Utxos) (s : List ℕ)
    → IsDistinct s
    → pay ((m, a) ∷ r) s ≡ (if contains m s then plus a (pay r (remove m s)) else pay r s)
pay-cons m a r [] h = refl
pay-cons m a r (n ∷ s) h = elim (Bool-cases (m == n)) [
  | inl same ↦ ground (arith, pay-cons m a r s h.1, (==_iff m n).0 same)
  | inr differs ↦
      ground (arith, pay-cons m a r s h.1, plus_option-plus (amount_of n r) a (pay r (remove m s)))
]

-- The end of `sum_amounts`: a number that was not found is an error.
finish : Result (ℕ × List ℕ) → Result ℕ
finish r = r >>= λ p. if is_empty p.1 then ok p.0 else err Exn.utxo_not_found

abbrev pub paid : ℕ → Option ℕ → Result ℕ
paid total none = err Exn.utxo_not_found
paid total (some t) = ok (total + t)

paid-plus : (total a : ℕ) (o : Option ℕ) → paid (total + a) o ≡ paid total (plus a o)
paid-plus total a none = refl
paid-plus total a (some t) = ap ok (omega arith)

sum_from_hit :
    (m a : ℕ) (r : List Text) (s : List ℕ) (total : ℕ)
    → contains m s ≡ true
    → sum_from (str m ∷ str a ∷ r) s total ≡ (elim (is_empty (remove m s)) [
      | true ↦ ok (total + a, remove m s)
      | false ↦ sum_from r (remove m s) (total + a)
    ])
unfolding sum_from
sum_from_hit m a r s total h = ground (arith, int-str m, int-str a)

sum_from_miss :
    (m a : ℕ) (r : List Text) (s : List ℕ) (total : ℕ)
    → contains m s ≡ false
    → sum_from (str m ∷ str a ∷ r) s total ≡ sum_from r s total
unfolding sum_from
sum_from_miss m a r s total h = ground (arith, int-str m)

is_empty→pay : (ps : Utxos) (s : List ℕ) → is_empty s ≡ true → pay ps s ≡ some 0
is_empty→pay ps [] h = refl
is_empty→pay ps (n ∷ s) h = cc

sum_from-encode :
    (ps : Utxos) (s : List ℕ) (total : ℕ)
    → IsDistinct s
    → finish (sum_from (encode ps) s total) ≡ paid total (pay ps s)
sum_from-encode [] [] total h = unfold sum_from finish in ground arith
sum_from-encode [] (n ∷ s) total h = unfold sum_from finish in refl
sum_from-encode ((m, a) ∷ r) s total h = elim (Bool-cases (contains m s)) [
  | inl wanted ↦
      rw (sum_from_hit m a (encode r) s total wanted, pay-cons m a r s h, wanted)
        (elim (Bool-cases (is_empty (remove m s))) [
          | inl last ↦
              rw (last, is_empty→pay r (remove m s) last) (unfold finish in rw last (ground arith))
          | inr more ↦ rw more (
              sum_from-encode r (remove m s) (total + a) (remove-IsDistinct m s h)
              ∙ paid-plus total a (pay r (remove m s)))
        ])
  | inr skipped ↦
      rw (sum_from_miss m a (encode r) s total skipped, pay-cons m a r s h, skipped)
        (sum_from-encode r s total h)
]

-- For different numbers the sum is that of the first pair with each number; with one of them not
-- there `UTXONotFound` is raised.
pub sum_amounts-holding :
    (address : Text) (ps : Utxos) (s : List ℕ)
    → IsDistinct s
    → sum_amounts (holding address ps) s ≡ paid 0 (pay ps s)
unfolding sum_amounts
sum_amounts-holding address ps s h = unfold finish in sum_from-encode ps s 0 h

contains-append : (k n : ℕ) (s : List ℕ) → contains k (s ++ n ∷ []) ≡ (contains k s || k == n)
contains-append k n [] = ground arith
contains-append k n (x ∷ s) = ground (arith, contains-append k n s)

append-IsDistinct :
    (n : ℕ) (s : List ℕ) → IsDistinct s → contains n s ≡ false → IsDistinct (s ++ n ∷ [])
append-IsDistinct n [] h e = (refl, tt)
append-IsDistinct n (x ∷ s) h e = ground (arith, contains-append x n s, append-IsDistinct n s h.1)

pub add-IsDistinct : (n : ℕ) (s : List ℕ) → IsDistinct s → IsDistinct (add n s)
add-IsDistinct n s h = elim (Bool-cases (contains n s)) [
  | inl old ↦ rw old h
  | inr new ↦ rw new (append-IsDistinct n s h new)
]
