-- ===== src/Amounts/Pairs/Remove.antt =====
-- `remove_seq_no` on the written form removes the first pair with the number.
use token_plugin.Prelude.{
  ℕ, suc, ◌≡◌, refl, ap, sym, ◌∙◌, true, false, Option, none, some, List, [], ◌∷◌, ◌++◌, arith,
  ◌==◌, if◌then◌else◌, length, length-append, pop, append_assoc, Bool-cases, inl, inr,
}
use token_plugin.Text.{Text}
use token_plugin.Text.Decimal.{str}
use token_plugin.Errors.{Exn, Result, ok, err}
use token_plugin.Amounts.{UtxoAmounts, find_from, pop_at, remove_seq_no}
use token_plugin.Amounts.Pairs.Encode.{Utxos, encode, holding, text_eq-str}

-- The first pair with the number taken out; `none` if there is none.
abbrev pub erase : ℕ → Utxos → Option Utxos
erase n [] = none
erase n ((m, a) ∷ r) =
    if m == n then some r else (elim (erase n r) [ none ↦ none | some r' ↦ some ((m, a) ∷ r') ])

-- The result of a removal, with the items in front of it.
abbrev after : Text → List Text → Option Utxos → Result UtxoAmounts
after address front none = err Exn.utxo_not_found
after address front (some ps) = ok (record { address = address; items = front ++ encode ps })

pop-append : (xs ys : List Text) → pop (length xs) (xs ++ ys) ≡ xs ++ pop 0 ys
pop-append [] ys = refl
pop-append (x ∷ xs) ys = ap (λ l. x ∷ l) (pop-append xs ys)

pop_at-append :
    (address : Text) (front : List Text) (x y : Text) (r : List Text)
    → pop_at (record { address = address; items = front ++ x ∷ y ∷ r }) (some (length front))
      ≡ ok (record { address = address; items = front ++ r })
unfolding pop_at
pop_at-append address front x y r =
    rw (pop-append front (x ∷ y ∷ r))
      (rw (pop-append front (y ∷ r)) (ground (arith, length-append front (x ∷ y ∷ r))))

find_from_hit :
    (i n : ℕ) (m : ℕ) (y : Text) (r : List Text)
    → (m == n) ≡ true
    → find_from i (str n) (str m ∷ y ∷ r) ≡ some i
unfolding find_from
find_from_hit i n m y r h = ground (arith, text_eq-str m n)

find_from_miss :
    (i n : ℕ) (m : ℕ) (y : Text) (r : List Text)
    → (m == n) ≡ false
    → find_from i (str n) (str m ∷ y ∷ r) ≡ find_from (suc (suc i)) (str n) r
unfolding find_from
find_from_miss i n m y r h = ground (arith, text_eq-str m n)

after-cons :
    (address : Text) (front : List Text) (m a : ℕ) (o : Option Utxos)
    → after address (front ++ str m ∷ str a ∷ []) o
      ≡ after address front (elim o [ none ↦ none | some r' ↦ some ((m, a) ∷ r') ])
after-cons address front m a none = refl
after-cons address front m a (some ps) =
    ap (λ l. ok (record { address = address; items = l })) (append_assoc front _ _)

pop_at_find :
    (address : Text) (n : ℕ) (ps : Utxos) (front : List Text) (i : ℕ)
    → i ≡ length front
    → pop_at
        (record { address = address; items = front ++ encode ps })
        (find_from i (str n) (encode ps))
      ≡ after address front (erase n ps)
pop_at_find address n [] front i h = unfold find_from pop_at in refl
pop_at_find address n ((m, a) ∷ r) front i h = elim (Bool-cases (m == n)) [
  | inl same ↦
      rw (same, find_from_hit i n m (str a) (encode r) same, h)
        (pop_at-append address front (str m) (str a) (encode r))
  | inr differs ↦
      let ih =
        pop_at_find address n r (front ++ str m ∷ str a ∷ []) (suc (suc i))
          (omega (arith, length-append front (str m ∷ str a ∷ []))) in
      rw (differs, find_from_miss i n m (str a) (encode r) differs)
        (ap
            (λ l.
              pop_at (record { address = address; items = l })
                (find_from (suc (suc i)) (str n) (encode r)))
            (sym (append_assoc front (str m ∷ str a ∷ []) (encode r)))
          ∙ ih
          ∙ after-cons address front m a (erase n r))
]

-- The object that is left, or the exception.
abbrev pub removed : Text → Option Utxos → Result UtxoAmounts
removed address none = err Exn.utxo_not_found
removed address (some ps) = ok (holding address ps)

removed-after : (address : Text) (o : Option Utxos) → after address [] o ≡ removed address o
removed-after address none = refl
removed-after address (some ps) = refl

-- Of an object that holds pairs, the first pair with the number is removed, and nothing else; with
-- none such `UTXONotFound` is raised.
pub remove_seq_no-holding :
    (address : Text) (ps : Utxos) (n : ℕ)
    → remove_seq_no (holding address ps) n ≡ removed address (erase n ps)
unfolding remove_seq_no
remove_seq_no-holding address ps n =
    pop_at_find address n ps [] 0 refl ∙ removed-after address (erase n ps)
