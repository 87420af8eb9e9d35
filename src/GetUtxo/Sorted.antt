-- ===== src/GetUtxo/Sorted.antt =====
-- The outputs that a query collects: sorted, and one for each entry that is not spent.
use mathlib.Core.Path.{subst}
use token_plugin.Prelude.{
  ℕ, suc, ◌+◌, ◌≤◌, ◌≡◌, refl, ap, some, List, [], ◌∷◌, arith, ltb, if◌then◌else◌, length, is_empty,
  All, Bool-cases, inl, inr,
}
use token_plugin.Text.{Text}
use token_plugin.Text.Decimal.{int}
use token_plugin.Errors.{Exn, Result, ok, >>=-eq-ok, or_raise}
use token_plugin.Amounts.{Output}
use token_plugin.GetUtxo.{add_sorted, unpack_two, add_entry, collect}
use token_plugin.Token.{parse_state_key}

abbrev pub IsSorted : List Output → Type 0
IsSorted [] = Unit
IsSorted (o ∷ r) = All (λ p. o.seq_no ≤ p.seq_no) r × IsSorted r

-- The entries that are not spent.
abbrev pub unspent : (Text → Text) → List (Text × Text) → ℕ
unspent rlp [] = 0
unspent rlp ((k, v) ∷ rv) = if is_empty (rlp v) then unspent rlp rv else suc (unspent rlp rv)

All-le : (n m : ℕ) (r : List Output) → n ≤ m → All (λ p. m ≤ p.seq_no) r → All (λ p. n ≤ p.seq_no) r
All-le n m [] h g = tt
All-le n m (o ∷ r) h g = (omega (arith, h, g.0), All-le n m r h g.1)

pub All-add_sorted {ℓ} :
    (P : Output → Type ℓ) (o : Output) (r : List Output) → P o → All P r → All P (add_sorted o r)
unfolding add_sorted
All-add_sorted P o [] h g = (h, tt)
All-add_sorted P o (p ∷ r) h g = elim (Bool-cases (ltb p.seq_no o.seq_no)) [
  | inl before ↦ rw before (g.0, All-add_sorted P o r h g.1)
  | inr here ↦ rw here (h, g)
]

pub add_sorted-IsSorted : (o : Output) (r : List Output) → IsSorted r → IsSorted (add_sorted o r)
unfolding add_sorted
add_sorted-IsSorted o [] h = (tt, tt)
add_sorted-IsSorted o (p ∷ r) h = elim (Bool-cases (ltb p.seq_no o.seq_no)) [
  | inl before ↦ rw before (
    All-add_sorted (λ q. p.seq_no ≤ q.seq_no) o r (ground arith) h.0,
    add_sorted-IsSorted o r h.1,
  )
  | inr here ↦
      let below : o.seq_no ≤ p.seq_no = ground arith in
      rw here ((below, All-le o.seq_no p.seq_no r below h.0), h)
]

length-add_sorted : (o : Output) (r : List Output) → length (add_sorted o r) ≡ suc (length r)
unfolding add_sorted
length-add_sorted o [] = refl
length-add_sorted o (p ∷ r) = ground (arith, length-add_sorted o r)

pub ok_inj : {l m : List Output} → Result.ok l ≡ ok m → l ≡ m
ok_inj e = cc e

-- Is there an entry to count?
abbrev live : Text → ℕ
live amount = if is_empty amount then 0 else 1

add_entry-IsSorted :
    (parts : Text × Text) (amount : Text) (outputs next : List Output)
    → IsSorted outputs
    → add_entry parts amount outputs ≡ ok next
    → IsSorted next × (length next ≡ length outputs + live amount)
unfolding add_entry
add_entry-IsSorted parts [] outputs next s h =
    (subst IsSorted (ok_inj h) s, omega (arith, ap length (ok_inj h)))
add_entry-IsSorted parts (c ∷ amount) outputs next s h =
    let (n, number, rest) = >>=-eq-ok (or_raise (int parts.1) Exn.value_error) _ h in
    let (a, value, same) = >>=-eq-ok (or_raise (int (c ∷ amount)) Exn.value_error) _ rest in
    let o : Output = record { address = parts.0; seq_no = n; amount = some a } in
    (
      subst IsSorted (ok_inj same) (add_sorted-IsSorted o outputs s),
      omega (arith, ap length (ok_inj same), length-add_sorted o outputs),
    )

unspent-cons :
    (rlp : Text → Text) (k v : Text) (rv : List (Text × Text))
    → unspent rlp ((k, v) ∷ rv) ≡ live (rlp v) + unspent rlp rv
unspent-cons rlp k v rv = ground arith

collect_from :
    (rlp : Text → Text) (rv : List (Text × Text)) (outputs utxos : List Output)
    → IsSorted outputs
    → collect rlp rv outputs ≡ ok utxos
    → IsSorted utxos × (length utxos ≡ length outputs + unspent rlp rv)
unfolding collect
collect_from rlp [] outputs utxos s h =
    (subst IsSorted (ok_inj h) s, omega (arith, ap length (ok_inj h)))
collect_from rlp ((k, v) ∷ rv) outputs utxos s h =
    let (parts, keyed, rest) = >>=-eq-ok (unpack_two (parse_state_key k)) _ h in
    let (next, added, more) = >>=-eq-ok (add_entry parts (rlp v) outputs) _ rest in
    let (kept, raised) = add_entry-IsSorted parts (rlp v) outputs next s added in
    let (sorted, counted) = collect_from rlp rv next utxos kept more in
    (sorted, omega (arith, raised, counted, unspent-cons rlp k v rv))

-- When the entries of the state can be read, the outputs collected from them are in the order of
-- their sequence numbers, and are as many as the entries with a value that is not empty.
pub collect-IsSorted :
    (rlp : Text → Text) (rv : List (Text × Text)) (utxos : List Output)
    → collect rlp rv [] ≡ ok utxos
    → IsSorted utxos × (length utxos ≡ unspent rlp rv)
collect-IsSorted rlp rv utxos h =
    let (sorted, counted) = collect_from rlp rv [] utxos tt h in (sorted, omega (arith, counted))
