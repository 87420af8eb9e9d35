-- ===== src/Cache/Refines.antt =====
-- The cache implements the specification, over every store with reads after writes.
use token_plugin.Prelude.{
  ℕ, ◌≡◌, refl, ap, ◌∙◌, Bool, true, false, Option, none, some, [], arith, if◌then◌else◌,
  Option-cases, inl, inr,
}
use token_plugin.Text.{Text, text_eq}
use token_plugin.Errors.{Exn, Result, ok, err, ◌>>=◌}
use token_plugin.Storage.{KvStore}
use token_plugin.Amounts.{Output, as_str, add_amount}
use token_plugin.Amounts.Pairs.{
  Utxos, text_of, holding, removed, erase, init-text_of, init-none, as_str-holding,
  add_amount-holding, add_amount-none, remove_seq_no-holding, as_output_list-holding, to_outputs,
}
use token_plugin.Cache.{get_amounts, add_output, spend_output, get_unspent_outputs}
use token_plugin.Ledger.{Ledger, utxos, update, receive, spend, spend_from}

abbrev pub written : Option Utxos → Option Text
written none = none
written (some ps) = some (text_of ps)

module _ (kv : KvStore) where
  open kv use {Cache, get, set}

  -- The store holds the ledger, at one of its two levels.
  pub record Holds (c : Cache) (b : Bool) (v : Ledger) : Type 0 where
    pub at : (a : Text) → get c a b ≡ written (v a)

  abbrev pub Agrees : Bool → Result Cache → Result Ledger → Type 0
  Agrees b (ok c) (ok v) = Holds c b v
  Agrees b (ok c) (err e) = ⊥
  Agrees b (err e) (ok v) = ⊥
  Agrees b (err e) (err e') = e ≡ e'

  get_amounts-known :
      (c : Cache) (b : Bool) (a : Text) (new : Bool) (ps : Utxos)
      → get c a b ≡ some (text_of ps)
      → get_amounts kv c a new b ≡ ok (holding a ps)
  unfolding get_amounts
  get_amounts-known c b a new ps h = ground (arith, init-text_of a ps)

  get_amounts-new :
      (c : Cache) (b : Bool) (a : Text)
      → get c a b ≡ none
      → get_amounts kv c a true b ≡ ok (holding a [])
  unfolding get_amounts
  get_amounts-new c b a h = ground (arith, init-none a)

  pub get_amounts-missing :
      (c : Cache) (b : Bool) (a : Text)
      → get c a b ≡ none
      → get_amounts kv c a false b ≡ err Exn.utxo_address_not_found
  unfolding get_amounts
  get_amounts-missing c b a h = ground arith

  -- An address that was never paid reads as one with nothing unspent.
  pub get_amounts-make_new :
      (c : Cache) (b : Bool) (v : Ledger) (a : Text)
      → Holds c b v
      → get_amounts kv c a true b ≡ ok (holding a (utxos v a))
  get_amounts-make_new c b v a h = elim (Option-cases (v a)) [
    | inl missing ↦ rw missing (get_amounts-new c b a (h.at a ∙ ap written missing))
    | inr (ps, known) ↦ rw known (get_amounts-known c b a true ps (h.at a ∙ ap written known))
  ]

  pub get_amounts-held :
      (c : Cache) (b : Bool) (v : Ledger) (a : Text) (ps : Utxos)
      → Holds c b v
      → v a ≡ some ps
      → get_amounts kv c a false b ≡ ok (holding a ps)
  get_amounts-held c b v a ps h known = get_amounts-known c b a false ps (h.at a ∙ ap written known)

  -- A write of an address's pairs is the update of the ledger.
  set-Holds :
      (c : Cache) (b : Bool) (v : Ledger) (a : Text) (ps : Utxos)
      → Holds c b v
      → Holds (set c a (text_of ps) b) b (update v a ps)
  set-Holds c b v a ps h = record {
    at = λ j. kv.get-set c a j (text_of ps) b ∙ written-if (text_eq a j) ps (v j) (h.at j);
  }
    where
      written-if :
          {o : Option Text} (t : Bool) (ps : Utxos) (w : Option Utxos)
          → o ≡ written w
          → (if t then some (text_of ps) else o) ≡ written (if t then some ps else w)
      written-if true ps w e = refl
      written-if false ps w e = e

  -- Adding an output to a cache that holds a ledger leaves one that holds the ledger with the pair
  -- at the end of its address, and is refused just where the specification refuses.
  pub add_output-Agrees :
      (c : Cache) (b : Bool) (v : Ledger) (o : Output)
      → Holds c b v
      → Agrees b (add_output kv c o b) (receive v o.address o.seq_no o.amount)
  unfolding add_output
  add_output-Agrees c b v o h = rw (get_amounts-make_new c b v o.address h) (go o.amount)
    where
      go :
          (x : Option ℕ)
          → Agrees b
              (add_amount (holding o.address (utxos v o.address)) o.seq_no x >>= λ u.
                as_str u >>= λ s. ok (set c o.address s b))
              (receive v o.address o.seq_no x)
      go none = rw add_amount-none refl
      go (some x) =
          rw (add_amount-holding o.address (utxos v o.address) o.seq_no x)
            (rw as_str-holding (set-Holds c b v o.address _ h))

  -- Of a cache that holds a ledger, spending takes the first pair with the number out of its
  -- address, as the specification does, and raises
  -- `UTXOAddressNotFound` or `UTXONotFound` just where the specification does.
  pub spend_output-Agrees :
      (c : Cache) (b : Bool) (v : Ledger) (o : Output)
      → Holds c b v
      → Agrees b (spend_output kv c o b) (spend v o.address o.seq_no)
  unfolding spend_output
  spend_output-Agrees c b v o h = elim (Option-cases (v o.address)) [
    | inl missing ↦
        rw (missing, spend)
          (rw (get_amounts-missing c b o.address (h.at o.address ∙ ap written missing)) refl)
    | inr (ps, known) ↦
        rw (known, spend)
          (rw (get_amounts-held c b v o.address ps h known)
            (rw (remove_seq_no-holding o.address ps o.seq_no) (go (erase o.seq_no ps))))
  ]
    where
      go :
          (x : Option Utxos)
          → Agrees b
              (removed o.address x >>= λ u. as_str u >>= λ s. ok (set c o.address s b))
              (spend_from v o.address x)
      go none = refl
      go (some ps) = rw as_str-holding (set-Holds c b v o.address ps h)

  -- Of a cache that holds a ledger, the unspent outputs of an address are its pairs, in order; none
  -- for an unknown address.
  pub get_unspent_outputs-eq :
      (c : Cache) (b : Bool) (v : Ledger) (a : Text)
      → Holds c b v
      → get_unspent_outputs kv c a b ≡ ok (to_outputs a (utxos v a))
  unfolding get_unspent_outputs
  get_unspent_outputs-eq c b v a h =
      rw (get_amounts-make_new c b v a h) (as_output_list-holding a (utxos v a))
