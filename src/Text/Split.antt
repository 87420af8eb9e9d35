-- ===== src/Text/Split.antt =====
-- `':'.join` and `split(':')`: what `join` writes `split` takes apart again.
use token_plugin.Prelude.{
  ℕ, ◌≡◌, refl, ap, ◌∙◌, ◌≢◌, List, [], ◌∷◌, ◌++◌, arith, ◌==◌, if◌then◌else◌, All,
}
use token_plugin.Text.{Text}
use token_plugin.Text.Decimal.{str, str-IsDigit, IsDigit}

-- The code point of ':'.
abbrev pub delimiter : ℕ
delimiter = b':'

unfoldable pub join : List Text → Text
join [] = []
join (x ∷ []) = x
join (x ∷ y ∷ r) = x ++ (delimiter ∷ join (y ∷ r))

cons_head : ℕ → List Text → List Text
cons_head c [] = (c ∷ []) ∷ []
cons_head c (x ∷ r) = (c ∷ x) ∷ r

unfoldable pub split : Text → List Text
unfolding cons_head
split [] = [] ∷ []
split (c ∷ s) = let rest = split s in if c == delimiter then [] ∷ rest else cons_head c rest

abbrev pub NoDelimiter : Text → Type 0
NoDelimiter = All (λ c. c ≢ delimiter)

All-digit_free : (s : Text) → All IsDigit s → NoDelimiter s
All-digit_free [] h = tt
All-digit_free (c ∷ s) h = (omega (arith, h.0.1), All-digit_free s h.1)

pub str-NoDelimiter : (n : ℕ) → NoDelimiter (str n)
str-NoDelimiter n = All-digit_free (str n) (str-IsDigit n)

split_last : (s : Text) → NoDelimiter s → split s ≡ s ∷ []
unfolding split
split_last [] h = refl
split_last (c ∷ s) h = ground (arith, split_last s h.1)

pub split-append : (s t : Text) → NoDelimiter s → split (s ++ (delimiter ∷ t)) ≡ s ∷ split t
unfolding split
split-append [] t h = refl
split-append (c ∷ s) t h = ground (arith, split-append s t h.1)

-- Of one or more parts without ':' the joined text splits into just these parts.
pub split-join : (xs : List Text) → xs ≢ [] → All NoDelimiter xs → split (join xs) ≡ xs
unfolding join
split-join [] ne h = absurd (ne refl)
split-join (x ∷ []) ne h = split_last x h.0
split-join (x ∷ y ∷ r) ne h =
    split-append x (join (y ∷ r)) h.0 ∙ ap (λ l. x ∷ l) (split-join (y ∷ r) (λ e. cc e) h.1)

pub join-ne-nil : (x y : Text) (r : List Text) → join (x ∷ y ∷ r) ≢ []
unfolding join
join-ne-nil [] y r = λ e. cc e
join-ne-nil (c ∷ x) y r = λ e. cc e
