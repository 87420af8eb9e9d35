-- ===== src/Amounts/Pairs/Encode.antt =====
-- The pairs of an address and the text that the cache keeps of them.
use token_plugin.Prelude.{
  ℕ, ◌%◌, ◌≡◌, refl, ap, ◌≢◌, none, some, List, [], ◌∷◌, ◌++◌, arith, ◌==◌, ==_iff, length, All,
}
use token_plugin.Text.{Text, text_eq, text_eq_iff}
use token_plugin.Text.Decimal.{str, str_inj, int-str}
use token_plugin.Text.Split.{join, split, split-join, join-ne-nil, NoDelimiter, str-NoDelimiter}
use token_plugin.Errors.{Exn, ok, err, ◌>>=◌}
use token_plugin.Amounts.{
  Output, UtxoAmounts, init, add_amount, as_str, as_output_list, outputs_from,
}

abbrev pub Utxos : Type 0
Utxos = List (ℕ × ℕ)

abbrev pub encode : Utxos → List Text
encode [] = []
encode ((n, a) ∷ r) = str n ∷ str a ∷ encode r

-- What stands in the cache.
unfoldable pub text_of : Utxos → Text
text_of ps = join (encode ps)

-- The object that holds the pairs.
abbrev pub holding : Text → Utxos → UtxoAmounts
holding address ps = record { address = address; items = encode ps }

abbrev pub to_outputs : Text → Utxos → List Output
to_outputs address [] = []
to_outputs address ((n, a) ∷ r) =
    record { address = address; seq_no = n; amount = some a } ∷ to_outputs address r

pub encode-append : (ps qs : Utxos) → encode (ps ++ qs) ≡ encode ps ++ encode qs
encode-append [] qs = refl
encode-append ((n, a) ∷ r) qs = ap (λ l. str n ∷ str a ∷ l) (encode-append r qs)

length-encode_even : (ps : Utxos) → length (encode ps) % 2 ≡ 0
length-encode_even [] = refl
length-encode_even ((n, a) ∷ r) = omega (arith, length-encode_even r)

encode-NoDelimiter : (ps : Utxos) → All NoDelimiter (encode ps)
encode-NoDelimiter [] = tt
encode-NoDelimiter ((n, a) ∷ r) = (str-NoDelimiter n, (str-NoDelimiter a, encode-NoDelimiter r))

pub text_eq-str : (m n : ℕ) → text_eq (str m) (str n) ≡ (m == n)
text_eq-str m n = ground (arith, text_eq_iff (str m) (str n), str_inj m n, ==_iff m n)

init-split :
    (address s : Text) (parts : List Text)
    → s ≢ []
    → split s ≡ parts
    → length parts % 2 ≡ 0
    → init address (some s) ≡ ok (record { address = address; items = parts })
unfolding init
init-split address [] parts ne h even = absurd (ne refl)
init-split address (c ∷ s) parts ne h even = rw h (ground arith)

pub init-text_of :
    (address : Text) (ps : Utxos) → init address (some (text_of ps)) ≡ ok (holding address ps)
unfolding text_of
init-text_of address [] = unfold init join in refl
init-text_of address ((n, a) ∷ r) =
    init-split address (join (encode ((n, a) ∷ r))) (encode ((n, a) ∷ r))
      (join-ne-nil (str n) (str a) (encode r))
      (split-join (encode ((n, a) ∷ r)) (λ e. cc e) (encode-NoDelimiter ((n, a) ∷ r)))
      (length-encode_even ((n, a) ∷ r))

pub init-none : (address : Text) → init address none ≡ ok (holding address [])
unfolding init
init-none address = refl

pub as_str-holding : (address : Text) (ps : Utxos) → as_str (holding address ps) ≡ ok (text_of ps)
unfolding as_str text_of
as_str-holding address ps = ground (arith, length-encode_even ps)

-- What `as_str` writes of an object, `__init__` reads back as the same object.
pub init-as_str :
    (address : Text) (ps : Utxos)
    → (as_str (holding address ps) >>= λ s. init address (some s)) ≡ ok (holding address ps)
init-as_str address ps = rw (as_str-holding address ps) (init-text_of address ps)

pub add_amount-holding :
    (address : Text) (ps : Utxos) (n a : ℕ)
    → add_amount (holding address ps) n (some a) ≡ ok (holding address (ps ++ (n, a) ∷ []))
unfolding add_amount
add_amount-holding address ps n a = rw (encode-append ps ((n, a) ∷ []))

pub add_amount-none : (u : UtxoAmounts) (n : ℕ) → add_amount u n none ≡ err Exn.utxo_error
unfolding add_amount
add_amount-none u n = refl

outputs_from-encode :
    (address : Text) (ps : Utxos) → outputs_from address (encode ps) ≡ ok (to_outputs address ps)
unfolding outputs_from
outputs_from-encode address [] = refl
outputs_from-encode address ((n, a) ∷ r) =
    rw (int-str n, int-str a) (rw (outputs_from-encode address r))

pub as_output_list-holding :
    (address : Text) (ps : Utxos) → as_output_list (holding address ps) ≡ ok (to_outputs address ps)
unfolding as_output_list
as_output_list-holding address ps =
    ground (arith, length-encode_even ps, outputs_from-encode address ps)
