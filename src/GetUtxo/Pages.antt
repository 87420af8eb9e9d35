-- ===== src/GetUtxo/Pages.antt =====
-- A client that asks for page after page, each time from the number that the last reply had.
use token_plugin.Prelude.{
  ℕ, zero, suc, ◌+◌, ◌-◌, ◌≤◌, ◌<◌, ◌≡◌, refl, ap, sym, ◌∙◌, false, Option, none, some, List, [],
  ◌∷◌, ◌++◌, append-nil, arith, leb, ltb, length, take, drop, take-drop, Bool-cases, inl, inr,
}
use token_plugin.Amounts.{Output}
use token_plugin.GetUtxo.{start_at, cut, seq_no_at, page}
use token_plugin.GetUtxo.Paging.{IsAscending, start_at-later, seq_no_at-above, drop-eq-at_least}

-- The outputs of so many replies at most.
abbrev pub pages : ℕ → ℕ → Option ℕ → List Output → List Output
pages zero limit from_seqno utxos = []
pages (suc n) limit from_seqno utxos =
    let p = page limit from_seqno utxos in
    p.outputs ++ (elim p.next_seqno [ none ↦ [] | some m ↦ pages n limit (some m) utxos ])

drop-nil : (i : ℕ) → ◌≡◌ {A = List Output} (drop i []) []
drop-nil zero = refl
drop-nil (suc i) = refl

suc-+ : (j i : ℕ) → suc (j + i) ≡ suc j + i
suc-+ j i = omega arith

drop-drop : (i j : ℕ) (xs : List Output) → drop i (drop j xs) ≡ drop (j + i) xs
drop-drop i zero xs = ap (λ k. drop k xs) (omega arith)
drop-drop i (suc j) [] = drop-nil i ∙ sym (ap (λ k. drop k []) (sym (suc-+ j i)))
drop-drop i (suc j) (x ∷ xs) = drop-drop i j xs ∙ ap (λ k. drop k (x ∷ xs)) (suc-+ j i)

length-drop : (i : ℕ) (xs : List Output) → length (drop i xs) ≡ length xs - i
length-drop zero xs = omega arith
length-drop (suc i) [] = omega arith
length-drop (suc i) (x ∷ xs) = omega (arith, length-drop i xs)

seq_no_at-drop : (i j : ℕ) (xs : List Output) → seq_no_at i (drop j xs) ≡ seq_no_at (j + i) xs
seq_no_at-drop i zero xs = ap (λ k. seq_no_at k xs) (omega arith)
seq_no_at-drop i (suc j) [] = refl
seq_no_at-drop i (suc j) (x ∷ xs) =
    seq_no_at-drop i j xs ∙ ap (λ k. seq_no_at k (x ∷ xs)) (suc-+ j i)

seq_no_at-some : (i : ℕ) (xs : List Output) → i < length xs → (m : ℕ) × (seq_no_at i xs ≡ some m)
seq_no_at-some i [] h = absurd (omega (arith, h))
seq_no_at-some zero (x ∷ xs) h = (x.seq_no, refl)
seq_no_at-some (suc i) (x ∷ xs) h = seq_no_at-some i xs (omega (arith, h))

-- A start from the number of a later output.
start_at-seq_no_at :
    (i m : ℕ) (utxos : List Output)
    → IsAscending utxos
    → seq_no_at (suc i) utxos ≡ some m
    → start_at (some m) utxos ≡ drop (suc i) utxos
start_at-seq_no_at i m [] h e = cc
start_at-seq_no_at i zero (o ∷ r) h e = absurd (omega (arith, seq_no_at-above 0 o.seq_no i r h.0 e))
start_at-seq_no_at i (suc m) (o ∷ r) h e =
    let above = seq_no_at-above (suc m) o.seq_no i r h.0 e in
    let later : leb (suc m) o.seq_no ≡ false = ground (arith, above) in
    start_at-later m o r h later ∙ drop-eq-at_least i (suc m) r h.1 e

-- The number after a full page, and the outputs that it leads to.
next_page :
    (n limit i : ℕ) (utxos : List Output)
    → IsAscending utxos
    → length (drop i utxos) ≤ suc n
    → suc limit < length (drop i utxos)
    → (m : ℕ) × (seq_no_at (suc limit) (drop i utxos) ≡ some m)
      × (start_at (some m) utxos ≡ drop (suc (i + limit)) utxos)
      × (drop (suc limit) (drop i utxos) ≡ drop (suc (i + limit)) utxos)
      × (length (drop (suc (i + limit)) utxos) ≤ n)
next_page n limit i utxos h enough long =
    let (m, here) = seq_no_at-some (suc limit) (drop i utxos) long in
    let place : i + suc limit ≡ suc (i + limit) = omega arith in
    let at : seq_no_at (suc (i + limit)) utxos ≡ some m =
      sym (seq_no_at-drop (suc limit) i utxos ∙ ap (λ k. seq_no_at k utxos) place) ∙ here in
    (
      m,
      here,
      start_at-seq_no_at (i + limit) m utxos h at,
      drop-drop (suc limit) i utxos ∙ ap (λ k. drop k utxos) place,
      omega (arith, enough, length-drop (suc (i + limit)) utxos, length-drop i utxos, long),
    )

-- The rounds of the client, from the place that the number stands for.
pages_from :
    (n limit i : ℕ) (from_seqno : Option ℕ) (utxos : List Output)
    → IsAscending utxos
    → start_at from_seqno utxos ≡ drop i utxos
    → length (drop i utxos) ≤ n
    → pages (suc n) (suc limit) from_seqno utxos ≡ drop i utxos
unfolding page cut
pages_from zero limit i from_seqno utxos h started enough =
    let short : ltb (suc limit) (length (drop i utxos)) ≡ false = ground (arith, enough) in
    rw started (rw short (append-nil (drop i utxos)))
pages_from (suc n) limit i from_seqno utxos h started enough =
    elim (Bool-cases (ltb (suc limit) (length (drop i utxos)))) [
      | inr short ↦ rw started (rw short (append-nil (drop i utxos)))
      | inl long ↦
          let (m, here, later, left, fewer) =
            next_page n limit i utxos h enough (ground (arith, long)) in
          let rest = pages_from n limit (suc (i + limit)) (some m) utxos h later fewer in
          rw started (
            rw long (
              rw here (
                ap (λ l. take (suc limit) (drop i utxos) ++ l) (rest ∙ sym left)
                ∙ take-drop (suc limit) (drop i utxos))))
    ]

-- Of ascending outputs, with a limit of at least one output, a client that begins without a number and asks again from each
-- next number gets, within one reply more than there are outputs, all of them in their order.
pub pages_complete :
    (limit : ℕ) (utxos : List Output)
    → IsAscending utxos
    → pages (suc (length utxos)) (suc limit) none utxos ≡ utxos
unfolding start_at
pages_complete limit utxos h = pages_from (length utxos) limit 0 none utxos h refl (omega arith)
