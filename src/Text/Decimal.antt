-- ===== src/Text/Decimal.antt =====
-- `str(n)` and `int(s)` for the numbers that the plugin writes: unsigned decimals. Texts that
-- Python's `int` also accepts, with a sign, blanks or underscores, are never written and are
-- refused here.
use token_plugin.Prelude.{
  ℕ, zero, suc, ◌+◌, ◌-◌, ◌*◌, ◌/◌, ◌%◌, ◌≤◌, ◌<◌, ◌≡◌, refl, ◌≢◌, ◌||◌, Option, none, some, List,
  [], ◌∷◌, ◌++◌, arith, ltb, if◌then◌else◌, All, All-append, Bool-cases, inl, inr, ap, ◌∙◌,
}

-- One round writes the last digit; the fuel is one more than the number.
digits : ℕ → ℕ → List ℕ
digits zero n = []
digits (suc f) n =
    let rest = digits f (n / 10) in if ltb n 10 then (48 + n) ∷ [] else rest ++ (48 + n % 10) ∷ []

unfoldable pub str : ℕ → List ℕ
unfolding digits
str n = digits (suc n) n

scan : List ℕ → ℕ → Option ℕ
scan [] n = some n
scan (c ∷ s) n = if ltb c 48 || ltb 57 c then none else scan s (n * 10 + (c - 48))

-- `none` is a `ValueError`.
unfoldable pub int : List ℕ → Option ℕ
unfolding scan
int [] = none
int (c ∷ s) = scan (c ∷ s) 0

scan-append_digit :
    (s : List ℕ) (d n m : ℕ)
    → d < 10
    → scan s n ≡ some m
    → scan (s ++ (48 + d) ∷ []) n ≡ some (m * 10 + d)
unfolding scan
scan-append_digit [] d n m lt h = ground arith
scan-append_digit (c ∷ s) d n m lt h =
    ground (arith, scan-append_digit s d (n * 10 + (c - 48)) m lt)

scan-digits : (f n : ℕ) → n < f → scan (digits f n) 0 ≡ some n
unfolding digits
scan-digits zero n h = elim h [ ]
scan-digits (suc f) n h = elim (Bool-cases (ltb n 10)) [
  | inl small ↦ rw small (unfold scan in ground arith)
  | inr large ↦ rw large (
      ground
        (arith, scan-append_digit (digits f (n / 10)) (n % 10) 0 (n / 10), scan-digits f (n / 10)))
]

abbrev pub IsDigit : ℕ → Type 0
IsDigit c = (48 ≤ c) × (c ≤ 57)

digits-IsDigit : (f n : ℕ) → All IsDigit (digits f n)
unfolding digits
digits-IsDigit zero n = tt
digits-IsDigit (suc f) n = elim (Bool-cases (ltb n 10)) [
  | inl small ↦ rw small (ground arith)
  | inr large ↦ rw large (All-append IsDigit _ _ (digits-IsDigit f (n / 10)) (ground arith))
]

pub str-IsDigit : (n : ℕ) → All IsDigit (str n)
unfolding str
str-IsDigit n = digits-IsDigit (suc n) n

append-ne-nil : (s : List ℕ) (c : ℕ) → s ++ c ∷ [] ≢ []
append-ne-nil [] c = λ e. cc e
append-ne-nil (x ∷ s) c = λ e. cc e

pub str-ne-nil : (n : ℕ) → str n ≢ []
unfolding str
str-ne-nil n = elim (Bool-cases (ltb n 10)) [
  | inl small ↦ rw small (λ e. cc e)
  | inr large ↦ rw large (append-ne-nil _ _)
]

int-eq-scan : (s : List ℕ) → s ≢ [] → int s ≡ scan s 0
unfolding int
int-eq-scan [] h = absurd (h refl)
int-eq-scan (c ∷ s) h = refl

-- What `str` writes `int` reads back.
pub int-str : (n : ℕ) → int (str n) ≡ some n
int-str n = int-eq-scan (str n) (str-ne-nil n) ∙ unfold str in scan-digits (suc n) n (omega arith)

pub str_inj : (m n : ℕ) → str m ≡ str n → m ≡ n
str_inj m n h = ground (arith, int-str m, int-str n, ap int h)

str-examples : (str 0 ≡ 48 ∷ []) × (str 1070 ≡ 49 ∷ 48 ∷ 55 ∷ 48 ∷ [])
unfolding str
str-examples = (refl, refl)
