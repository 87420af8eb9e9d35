-- ===== src/GetUtxo/Paging.antt =====
-- What a page holds, and that the number it ends with leads on to the rest.
use token_plugin.Prelude.{
  ℕ, zero, suc, ◌≤◌, ◌<◌, ◌≡◌, refl, ap, sym, ◌∙◌, true, false, Option, none, some, List, [], ◌∷◌,
  arith, leb, ltb, if◌then◌else◌, drop, Bool-cases, inl, inr, All,
}
use token_plugin.Amounts.{Output}
use token_plugin.GetUtxo.{find_from, drop_to, start_at, cut, seq_no_at, page}

-- In ascending order of sequence numbers; strictly, since an address has one output for each.
abbrev pub IsAscending : List Output → Type 0
IsAscending [] = Unit
IsAscending (o ∷ r) = All (λ p. o.seq_no < p.seq_no) r × IsAscending r

-- The outputs with at least the number.
abbrev pub at_least : ℕ → List Output → List Output
at_least n [] = []
at_least n (o ∷ r) = if leb n o.seq_no then o ∷ at_least n r else at_least n r

All-above : (n m : ℕ) (r : List Output) → n ≤ m → All (λ p. m < p.seq_no) r → at_least n r ≡ r
All-above n m [] h g = refl
All-above n m (o ∷ r) h g = ground (arith, All-above n m r)

-- The drop to the first index, before the test of the index for truth.
drop_found : Option ℕ → List Output → List Output
drop_found none utxos = []
drop_found (some i) utxos = drop i utxos

drop_found-find_from :
    (n : ℕ) (r : List Output) → IsAscending r → drop_found (find_from n r) r ≡ at_least n r
unfolding find_from drop_found
drop_found-find_from n [] h = refl
drop_found-find_from n (o ∷ r) h = elim (Bool-cases (leb n o.seq_no)) [
  | inl here ↦ rw here (ap (λ l. o ∷ l) (sym (All-above n o.seq_no r (ground arith) h.0)))
  | inr later ↦ rw later (go (find_from n r) (drop_found-find_from n r h.1))
]
  where
    go :
        (i : Option ℕ)
        → drop_found i r ≡ at_least n r
        → drop_found (elim i [ none ↦ none | some j ↦ some (suc j) ]) (o ∷ r) ≡ at_least n r
    go none e = e
    go (some j) e = e

pub start_at-later :
    (n : ℕ) (o : Output) (r : List Output)
    → IsAscending (o ∷ r)
    → leb (suc n) o.seq_no ≡ false
    → start_at (some (suc n)) (o ∷ r) ≡ at_least (suc n) r
unfolding start_at drop_found
start_at-later n o r h below =
    rw below (go (find_from (suc n) r) (drop_found-find_from (suc n) r h.1))
  where
    go :
        (i : Option ℕ)
        → drop_found i r ≡ at_least (suc n) r
        → drop_to (elim i [ none ↦ none | some j ↦ some (suc j) ]) (o ∷ r) ≡ at_least (suc n) r
    go none e = e
    go (some j) e = e

start_at-first :
    (n : ℕ) (o : Output) (r : List Output)
    → leb (suc n) o.seq_no ≡ true
    → start_at (some (suc n)) (o ∷ r) ≡ []
unfolding start_at
start_at-first n o r fits = rw fits refl

cut-nil : (limit : ℕ) → cut limit [] ≡ record { outputs = []; next_seqno = none }
unfolding cut
cut-nil limit = ground arith

-- Of ascending outputs, with a number of at least 1, the page is cut from the outputs that have at
-- least the number when the first output is below it, and is empty, with no next number, when the
-- first output is not.
pub page_from :
    (limit n : ℕ) (o : Output) (r : List Output)
    → IsAscending (o ∷ r)
    → page limit (some (suc n)) (o ∷ r) ≡ (
        if ltb o.seq_no (suc n)
        then cut limit (at_least (suc n) (o ∷ r))
        else record { outputs = []; next_seqno = none })
unfolding page
page_from limit n o r h = elim (Bool-cases (ltb o.seq_no (suc n))) [
  | inl below ↦
      let later : leb (suc n) o.seq_no ≡ false = ground arith in
      rw below (rw later (ap (cut limit) (start_at-later n o r h later)))
  | inr first ↦
      let fits : leb (suc n) o.seq_no ≡ true = ground arith in
      rw first (ap (cut limit) (start_at-first n o r fits) ∙ cut-nil limit)
]

pub seq_no_at-above :
    (m k i : ℕ) (r : List Output) → All (λ p. k < p.seq_no) r → seq_no_at i r ≡ some m → k < m
seq_no_at-above m k i [] g e = cc
seq_no_at-above m k zero (o ∷ r) g e = ground arith
seq_no_at-above m k (suc i) (o ∷ r) g e = seq_no_at-above m k i r g.1 e

pub drop-eq-at_least :
    (limit m : ℕ) (utxos : List Output)
    → IsAscending utxos
    → seq_no_at limit utxos ≡ some m
    → at_least m utxos ≡ drop limit utxos
drop-eq-at_least limit m [] h e = cc
drop-eq-at_least zero m (o ∷ r) h e = ground (arith, All-above m o.seq_no r)
drop-eq-at_least (suc i) m (o ∷ r) h e =
    ground (arith, seq_no_at-above m o.seq_no i r h.0 e, drop-eq-at_least i m r h.1 e)
