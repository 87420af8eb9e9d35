-- ===== src/Batch/Reply.antt =====
-- The reply of a committed batch of the domain ledger: which transactions get a fees transaction, and
-- which one.
use mathlib.Core.Path.{subst}
use token_plugin.Prelude.{
  ℕ, zero, suc, ◌≡◌, refl, sym, ap, ◌∙◌, true, false, Option, none, some, List, [], ◌∷◌, arith,
  length, get_elem?, drop, contains, All, is_some, Bool-cases, inl, inr,
}
use token_plugin.Errors.{ok}
use token_plugin.Fees.Domain.{Tracker, has_deducted_fees}
use token_plugin.Amounts.Pairs.{IsDistinct}
use token_plugin.Batch.{DomainTxn, seq_nos_with_fees, add_fees}

abbrev pub numbers : List DomainTxn → List ℕ
numbers [] = []
numbers (t ∷ ts) = t.seq_no ∷ numbers ts

-- The parts of a reply.
abbrev pub replied {ℓ} : {A : Type ℓ} → List (DomainTxn × Option A) → List DomainTxn
replied [] = []
replied ((t, x) ∷ r) = t ∷ replied r

abbrev pub added {ℓ} : {A : Type ℓ} → List (DomainTxn × Option A) → List A
added [] = []
added ((t, none) ∷ r) = added r
added ((t, some x) ∷ r) = x ∷ added r

-- The transactions are those of the batch, the fees transactions added to them are these, in their
-- order, and just the noted ones have one.
pub record Assigned {ℓ} {A : Type ℓ} (fees_tracker : Tracker) (ts : List DomainTxn)
    (token_txns : List A) (reply : List (DomainTxn × Option A)) : Type ℓ where
  pub same_txns : replied reply ≡ ts
  pub in_order : added reply ≡ token_txns
  pub noted :
      All
        (λ ((t, x) : DomainTxn × Option A).
          is_some x ≡ has_deducted_fees fees_tracker t.txn_type t.seq_no)
        reply

-- The transactions that the list of numbers has are those that are noted.
abbrev Finds : Tracker → List ℕ → List DomainTxn → Type 0
Finds t seq_nos = All (λ x. contains x.seq_no seq_nos ≡ has_deducted_fees t x.txn_type x.seq_no)

absent :
    (t : Tracker) (n : ℕ) (ts : List DomainTxn)
    → contains n (numbers ts) ≡ false
    → contains n (seq_nos_with_fees t ts) ≡ false
unfolding seq_nos_with_fees
absent t n [] h = refl
absent t n (x ∷ ts) h = ground (arith, absent t n ts, h)

Finds-more :
    (t : Tracker) (x : DomainTxn) (seq_nos : List ℕ) (ts : List DomainTxn)
    → contains x.seq_no (numbers ts) ≡ false
    → Finds t seq_nos ts
    → Finds t (x.seq_no ∷ seq_nos) ts
Finds-more t x seq_nos [] h a = tt
Finds-more t x seq_nos (y ∷ ts) h a =
    (ground (arith, h, a.0), Finds-more t x seq_nos ts (ground (arith, h)) a.1)

seq_nos_with_fees-Finds :
    (t : Tracker) (ts : List DomainTxn)
    → IsDistinct (numbers ts)
    → Finds t (seq_nos_with_fees t ts) ts
unfolding seq_nos_with_fees
seq_nos_with_fees-Finds t [] h = tt
seq_nos_with_fees-Finds t (x ∷ ts) h = elim (Bool-cases (has_deducted_fees t x.txn_type x.seq_no)) [
  | inl noted ↦
      let more : seq_nos_with_fees t (x ∷ ts) ≡ x.seq_no ∷ seq_nos_with_fees t ts = rw noted refl in
      subst (λ s. Finds t s (x ∷ ts)) (sym more)
        (ground (arith, noted), Finds-more t x _ ts h.0 (seq_nos_with_fees-Finds t ts h.1))
  | inr free ↦
      let same : seq_nos_with_fees t (x ∷ ts) ≡ seq_nos_with_fees t ts = rw free refl in
      subst (λ s. Finds t s (x ∷ ts)) (sym same)
        (absent t x.seq_no ts h.0 ∙ sym free, seq_nos_with_fees-Finds t ts h.1)
]

drop-some {ℓ} :
    {A : Type ℓ} (xs : List A) (i : ℕ) (y : A) (ys : List A)
    → drop i xs ≡ y ∷ ys
    → (get_elem? xs i ≡ some y) × (drop (suc i) xs ≡ ys)
drop-some [] zero y ys h = cc
drop-some [] (suc i) y ys h = cc
drop-some (x ∷ xs) zero y ys h = (cc, cc)
drop-some (x ∷ xs) (suc i) y ys h = drop-some xs i y ys h

length-suc {ℓ} :
    {A : Type ℓ} (xs : List A) (n : ℕ)
    → length xs ≡ suc n
    → (y : A) × (ys : List A) × (xs ≡ y ∷ ys) × (length ys ≡ n)
length-suc [] n h = absurd (omega (arith, h))
length-suc (y ∷ ys) n h = (y, ys, refl, omega (arith, h))

length_none {ℓ} : {A : Type ℓ} (xs : List A) → length xs ≡ 0 → [] ≡ xs
length_none [] h = refl
length_none (y ∷ ys) h = absurd (omega (arith, h))

module _ {ℓ} {A : Type ℓ} (seq_nos : List ℕ) (token_txns : List A) where
  add_fees_free :
      (i : ℕ) (x : DomainTxn) (ts : List DomainTxn) (reply : List (DomainTxn × Option A))
      → contains x.seq_no seq_nos ≡ false
      → add_fees seq_nos token_txns i ts ≡ ok reply
      → add_fees seq_nos token_txns i (x ∷ ts) ≡ ok ((x, none) ∷ reply)
  unfolding add_fees
  add_fees_free i x ts reply free run = rw (free, add_fees) (rw run refl)

  add_fees_noted :
      (i : ℕ) (x : DomainTxn) (ts : List DomainTxn) (y : A) (reply : List (DomainTxn × Option A))
      → contains x.seq_no seq_nos ≡ true
      → get_elem? token_txns i ≡ some y
      → add_fees seq_nos token_txns (suc i) ts ≡ ok reply
      → add_fees seq_nos token_txns i (x ∷ ts) ≡ ok ((x, some y) ∷ reply)
  unfolding add_fees
  add_fees_noted i x ts y reply noted here run = rw (noted, add_fees) (rw here (rw run refl))

  -- From the counter `i` on, the loop gives the rest of the fees transactions out, if there are as
  -- many as noted transactions.
  pub add_fees-Assigned :
      (t : Tracker) (i : ℕ) (ts : List DomainTxn) (rest : List A)
      → Finds t seq_nos ts
      → drop i token_txns ≡ rest
      → length rest ≡ length (seq_nos_with_fees t ts)
      → (reply : List (DomainTxn × Option A)) × (add_fees seq_nos token_txns i ts ≡ ok reply)
        × Assigned t ts rest reply
  unfolding seq_nos_with_fees
  add_fees-Assigned t i [] rest finds left enough = (
    [],
    unfold add_fees in refl,
    record { same_txns = refl; in_order = length_none rest enough; noted = tt },
  )
  add_fees-Assigned t i (x ∷ ts) rest finds left enough =
      elim (Bool-cases (has_deducted_fees t x.txn_type x.seq_no)) [
        | inl noted ↦
            let (y, ys, split, fewer) =
              length-suc rest (length (seq_nos_with_fees t ts)) (enough ∙ rw noted refl) in
            let (here, later) = drop-some token_txns i y ys (left ∙ split) in
            let (reply, run, assigned) = add_fees-Assigned t (suc i) ts ys finds.1 later fewer in
            (
              (x, some y) ∷ reply,
              add_fees_noted i x ts y reply (finds.0 ∙ noted) here run,
              record {
                same_txns = ap (λ r. x ∷ r) assigned.same_txns;
                in_order = ap (λ r. y ∷ r) assigned.in_order ∙ sym split;
                noted = (sym noted, assigned.noted);
              },
            )
        | inr free ↦
            let (reply, run, assigned) =
              add_fees-Assigned t i ts rest finds.1 left (enough ∙ rw free refl) in
            (
              (x, none) ∷ reply,
              add_fees_free i x ts reply (finds.0 ∙ free) run,
              record {
                same_txns = ap (λ r. x ∷ r) assigned.same_txns;
                in_order = assigned.in_order;
                noted = (sym free, assigned.noted);
              },
            )
      ]

-- For transactions that differ in their numbers, and as many fees transactions as are noted.
pub reply_Assigned {ℓ} :
    {A : Type ℓ} (t : Tracker) (ts : List DomainTxn) (token_txns : List A)
    → IsDistinct (numbers ts)
    → length token_txns ≡ length (seq_nos_with_fees t ts)
    → (reply : List (DomainTxn × Option A)) × (add_fees (seq_nos_with_fees t ts) token_txns 0 ts
        ≡ ok reply)
      × Assigned t ts token_txns reply
reply_Assigned t ts token_txns distinct enough =
    add_fees-Assigned _ token_txns t 0 ts token_txns (seq_nos_with_fees-Finds t ts distinct) refl
      enough
