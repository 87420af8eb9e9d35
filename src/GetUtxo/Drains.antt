-- ===== src/GetUtxo/Drains.antt =====
-- The loop of `sorted_list` ends, and gives the list that the handler's model keeps.
use mathlib.Core.List.{Permᴰ}
use mathlib.Core.List.Permᴰ as PermD
use token_plugin.Prelude.{
  ℕ, zero, suc, ◌≤◌, ◌<◌, ◌≡◌, ◌≢◌, refl, ap, ap₂, sym, ◌∙◌, Option, none, some, List, [], ◌∷◌,
  ◌++◌, append_assoc, append-nil, arith, ltb, length, All, Bool-cases, Option-cases, inl, inr,
}
use mathlib.Core.Path.{subst}
use token_plugin.Text.{Text}
use token_plugin.Text.Decimal.{int}
use token_plugin.Errors.{Exn, ok, >>=-eq-ok, or_raise}
use token_plugin.Amounts.{Output}
use token_plugin.Token.{parse_state_key}
use token_plugin.GetUtxo.{add_sorted, unpack_two, add_entry, collect}
use token_plugin.GetUtxo.Sorted.{All-add_sorted, ok_inj}
use token_plugin.GetUtxo.SortedItems.{Heapq, drain, sorted_list, push_entry, push_each}

-- What Python documents of `heapq`: the items are those that were pushed, in some order, and a pop
-- takes out one that is not greater than any other.
abbrev pub Popped : {H : Type 0} → (H → List Output) → List Output → Option (Output × H) → Type 0
Popped items os none = os ≡ []
Popped items os (some (o, rest)) =
    Permᴰ os (o ∷ items rest) × All (λ p. o.seq_no ≤ p.seq_no) (items rest)

pub record IsHeapq (h : Heapq) : Type 0 where
  pub items : h.Heap → List Output
  pub items-new : items h.new ≡ []
  pub items-push : (s : h.Heap) (o : Output) → Permᴰ (items (h.heappush s o)) (o ∷ items s)
  pub popped : (s : h.Heap) → Popped items (items s) (h.heappop s)

-- The outputs have different numbers.
abbrev pub IsApart : Output → List Output → Type 0
IsApart o = All (λ p. o.seq_no ≢ p.seq_no)

abbrev pub AreApart : List Output → Type 0
AreApart [] = Unit
AreApart (o ∷ r) = IsApart o r × AreApart r

-- The outputs of a list, each inserted in its place.
abbrev pub sort : List Output → List Output
sort [] = []
sort (o ∷ r) = add_sorted o (sort r)

All-perm {ℓ} : {A : Type 0} (P : A → Type ℓ) {xs ys : List A} → Permᴰ xs ys → All P xs → All P ys
All-perm P Permᴰ.nil h = tt
All-perm P (Permᴰ.cons e p) h = (subst P e h.0, All-perm P p h.1)
All-perm P (Permᴰ.swap e f) h = (subst P f h.1.0, (subst P e h.0, h.1.1))
All-perm P (Permᴰ.trans p q) h = All-perm P q (All-perm P p h)

swap_apart : (a b : Output) (l : List Output) → AreApart (a ∷ b ∷ l) → AreApart (b ∷ a ∷ l)
swap_apart a b l h = ((λ e. h.0.0 (sym e), h.1.0), (h.0.1, h.1.1))

length-perm : {xs ys : List Output} → Permᴰ xs ys → length xs ≡ length ys
length-perm Permᴰ.nil = refl
length-perm (Permᴰ.cons e p) = ap suc (length-perm p)
length-perm (Permᴰ.swap e f) = refl
length-perm (Permᴰ.trans p q) = length-perm p ∙ length-perm q

AreApart-perm : {xs ys : List Output} → Permᴰ xs ys → AreApart xs → AreApart ys
AreApart-perm Permᴰ.nil h = tt
AreApart-perm (Permᴰ.cons {l₂ = ys} e p) h =
    (subst (λ o. IsApart o ys) e (All-perm _ p h.0), AreApart-perm p h.1)
AreApart-perm (Permᴰ.swap {a = a} {b = b} {b' = b'} {l = l} e f) h =
    subst (λ x. AreApart (x ∷ b' ∷ l)) f (subst (λ y. AreApart (b ∷ y ∷ l)) e (swap_apart a b l h))
AreApart-perm (Permᴰ.trans p q) h = AreApart-perm q (AreApart-perm p h)

-- Two outputs of different numbers can be added in either order.
add_sorted_comm :
    (a b : Output) (r : List Output)
    → a.seq_no ≢ b.seq_no
    → add_sorted a (add_sorted b r) ≡ add_sorted b (add_sorted a r)
unfolding add_sorted
add_sorted_comm a b [] h = ground arith
add_sorted_comm a b (p ∷ r) h = ground (arith, add_sorted_comm a b r h)

sort-perm : {xs ys : List Output} → Permᴰ xs ys → AreApart xs → sort xs ≡ sort ys
sort-perm Permᴰ.nil h = refl
sort-perm (Permᴰ.cons e p) h = ap₂ add_sorted e (sort-perm p h.1)
sort-perm (Permᴰ.swap {a = a} {b = b} {b' = b'} {l = l} e f) h =
    add_sorted_comm a b (sort l) h.0.0 ∙ ap₂ (λ x y. add_sorted x (add_sorted y (sort l))) f e
sort-perm (Permᴰ.trans p q) h = sort-perm p h ∙ sort-perm q (AreApart-perm p h)

-- A least output comes first.
add_sorted-least :
    (o : Output) (r : List Output) → All (λ p. o.seq_no ≤ p.seq_no) r → add_sorted o r ≡ o ∷ r
unfolding add_sorted
add_sorted-least o [] h = refl
add_sorted-least o (p ∷ r) h = ground arith

pub All-sort :
    (n : ℕ) (r : List Output) → All (λ p. n ≤ p.seq_no) r → All (λ p. n ≤ p.seq_no) (sort r)
All-sort n [] h = tt
All-sort n (o ∷ r) h = All-add_sorted (λ p. n ≤ p.seq_no) o (sort r) h.0 (All-sort n r h.1)

pub add_sorted-perm : (o : Output) (r : List Output) → Permᴰ (add_sorted o r) (o ∷ r)
unfolding add_sorted
add_sorted-perm o [] = PermD.refl _
add_sorted-perm o (p ∷ r) = elim (Bool-cases (ltb p.seq_no o.seq_no)) [
  | inl before ↦
      rw before (Permᴰ.trans (Permᴰ.cons refl (add_sorted-perm o r)) (Permᴰ.swap refl refl))
  | inr here ↦ rw here (PermD.refl _)
]

pub perm_of_sort : (r : List Output) {l : List Output} → l ≡ sort r → Permᴰ l r
perm_of_sort r e = subst (λ l. Permᴰ l r) (sym e) (go r)
  where
    go : (r : List Output) → Permᴰ (sort r) r
    go [] = Permᴰ.nil
    go (o ∷ r) = Permᴰ.trans (add_sorted-perm o (sort r)) (Permᴰ.cons refl (go r))

module _ (h : Heapq) (laws : IsHeapq h) where
  -- With more fuel than items the loop ends, and appends the items in order.
  drain-ends :
      (fuel : ℕ) (s : h.Heap) (ordered : List Output)
      → length (laws.items s) < fuel
      → AreApart (laws.items s)
      → drain h fuel s ordered ≡ some (ordered ++ sort (laws.items s))
  unfolding drain
  drain-ends zero s ordered lt d = absurd (omega arith)
  drain-ends (suc fuel) s ordered lt d = elim (Option-cases (h.heappop s)) [
    | inl empty ↦
        let none_left : laws.items s ≡ [] =
          subst (Popped laws.items (laws.items s)) empty (laws.popped s) in
        rw (empty, drain) (rw none_left (ap some (sym (append-nil ordered))))
    | inr ((o, rest), taken) ↦
        let (perm, least) = subst (Popped laws.items (laws.items s)) taken (laws.popped s) in
        let (apart, others) = AreApart-perm perm d in
        let ordered_next =
          sort-perm perm d
          ∙ add_sorted-least o (sort (laws.items rest)) (All-sort o.seq_no _ least) in
        rw (taken, drain)
          (drain-ends fuel rest (ordered ++ o ∷ []) (omega (arith, length-perm perm)) others
            ∙ ap some (
                append_assoc ordered (o ∷ []) (sort (laws.items rest))
                ∙ ap (λ l. ordered ++ l) (sym ordered_next)))
  ]

  -- A heap that holds what a list, kept in order, has.
  record Keeps (s : h.Heap) (outputs : List Output) : Type 0 where
    at : List Output
    held : Permᴰ (laws.items s) at
    same : outputs ≡ sort at

  push-Keeps :
      (s : h.Heap) (outputs : List Output) (o : Output)
      → Keeps s outputs
      → Keeps (h.heappush s o) (add_sorted o outputs)
  push-Keeps s outputs o k = record {
    at = o ∷ k.at;
    held = Permᴰ.trans (laws.items-push s o) (Permᴰ.cons refl k.held);
    same = ap (add_sorted o) k.same;
  }

  entry-Keeps :
      (parts : Text × Text) (amount : Text) (s : h.Heap) (outputs next : List Output)
      → Keeps s outputs
      → add_entry parts amount outputs ≡ ok next
      → (t : h.Heap) × (push_entry h parts amount s ≡ ok t) × Keeps t next
  unfolding add_entry push_entry
  entry-Keeps parts [] s outputs next k e = (s, refl, subst (Keeps s) (ok_inj e) k)
  entry-Keeps parts (c ∷ amount) s outputs next k e =
      let (n, number, rest) = >>=-eq-ok (or_raise (int parts.1) Exn.value_error) _ e in
      let (a, value, same) = >>=-eq-ok (or_raise (int (c ∷ amount)) Exn.value_error) _ rest in
      let o : Output = record { address = parts.0; seq_no = n; amount = some a } in
      (
        h.heappush s o,
        rw number (rw value refl),
        subst (Keeps (h.heappush s o)) (ok_inj same) (push-Keeps s outputs o k),
      )

  entries-Keeps :
      (rlp : Text → Text) (rv : List (Text × Text)) (s : h.Heap) (outputs utxos : List Output)
      → Keeps s outputs
      → collect rlp rv outputs ≡ ok utxos
      → (t : h.Heap) × (push_each h rlp rv s ≡ ok t) × Keeps t utxos
  unfolding collect push_each
  entries-Keeps rlp [] s outputs utxos k e = (s, refl, subst (Keeps s) (ok_inj e) k)
  entries-Keeps rlp ((key, v) ∷ rv) s outputs utxos k e =
      let (parts, keyed, rest) = >>=-eq-ok (unpack_two (parse_state_key key)) _ e in
      let (next, added, more) = >>=-eq-ok (add_entry parts (rlp v) outputs) _ rest in
      let (u, first, kept) = entry-Keeps parts (rlp v) s outputs next k added in
      let (t, last, held) = entries-Keeps rlp rv u next utxos kept more in
      (t, rw keyed (rw first last), held)

  -- When the entries of the state can be read, as outputs with different numbers, `SortedItems` takes
  -- them all; the loop of its `sorted_list` ends within one round more than there are outputs, and
  -- gives them as the handler's model has them, each inserted in its place.
  pub sorted_list_ends :
      (rlp : Text → Text) (rv : List (Text × Text)) (utxos : List Output)
      → collect rlp rv [] ≡ ok utxos
      → AreApart utxos
      → (t : h.Heap) × (push_each h rlp rv h.new ≡ ok t)
        × (sorted_list h (suc (length utxos)) t ≡ some utxos)
  unfolding sorted_list
  sorted_list_ends rlp rv utxos e d =
      let start : Keeps h.new [] = record {
        at = [];
        held = subst (λ l. Permᴰ l []) (sym laws.items-new) Permᴰ.nil;
        same = refl;
      } in
      let (t, run, k) = entries-Keeps rlp rv h.new [] utxos start e in
      let whole = PermD.symm (Permᴰ.trans k.held (PermD.symm (perm_of_sort k.at k.same))) in
      let apart = AreApart-perm whole d in
      (
        t,
        run,
        drain-ends (suc (length utxos)) t [] (omega (arith, length-perm whole)) apart
            ∙ ap some (sort-perm k.held apart ∙ sym k.same),
      )
