-- ===== src/Token/Agreement.antt =====
-- The token state and the UTXO cache record the same unspent outputs. The state is read the way
-- `GetUtxoHandler` reads it: an empty value is a spent output.
pub mod Steps
use token_plugin.Prelude.{
  ℕ, ◌≡◌, refl, ap, ap₂, sym, ◌∙◌, Bool, true, false, Option, none, some, List, [], ◌∷◌, ◌++◌,
  arith, ◌==◌, ==_iff, if◌then◌else◌, Bool-cases, Option-cases, inl, inr,
}
use token_plugin.Text.{Text, text_eq, text_eq_iff, text_eq→eq, text_eq_refl}
use token_plugin.Text.Decimal.{str, str-ne-nil}
use token_plugin.Text.Split.{NoDelimiter}
use token_plugin.Storage.{TrieState}
use token_plugin.Amounts.Pairs.{Utxos, erase, amount_of}
use token_plugin.Ledger.{Ledger, utxos, update}
use token_plugin.Ledger.Once.{
  IsOnce, amount_of-erase_ne, amount_of-erase_self, erase-IsOnce, amount_of-append, append-IsOnce,
}
use token_plugin.Token.{create_state_key}
use token_plugin.Token.Keys.{create_state_key_inj}

abbrev pub live : Option Text → Option Text
live none = none
live (some []) = none
live (some (c ∷ s)) = some (c ∷ s)

abbrev pub amount_str : Option ℕ → Option Text
amount_str none = none
amount_str (some a) = some (str a)

live-str : (a : ℕ) → live (some (str a)) ≡ some (str a)
live-str a = go (str a) (str-ne-nil a)
  where
    go : (s : Text) → ¬ (s ≡ []) → live (some s) ≡ some s
    go [] h = absurd (h refl)
    go (c ∷ s) h = refl

-- The test that two outputs share a key, for addresses without ':'.
key_eq :
    (a c : Text) (n m : ℕ)
    → NoDelimiter a
    → NoDelimiter c
    → text_eq (create_state_key a n) (create_state_key c m)
      ≡ (if text_eq a c then n == m else false)
key_eq a c n m ha hc = elim (Bool-cases (text_eq (create_state_key a n) (create_state_key c m))) [
  | inl same ↦
      let (addresses, numbers) = create_state_key_inj a c n m ha hc (text_eq→eq _ _ same) in
      rw (same, (text_eq_iff a c).1 addresses, (==_iff n m).1 numbers) refl
  | inr differs ↦ rw differs (elim (Bool-cases (text_eq a c)) [
    | inl addresses ↦ rw addresses (elim (Bool-cases (n == m)) [
      | inl numbers ↦ cc (
        differs,
        (text_eq_iff _ _).1
            (ap₂ create_state_key (text_eq→eq a c addresses) ((==_iff n m).0 numbers)),
      )
      | inr apart ↦ rw apart refl
    ])
    | inr apart ↦ rw apart refl
  ])
]

module _ (ts : TrieState) where
  pub record Agreement (s : ts.State) (v : Ledger) : Type 0 where
    pub at :
        (a : Text) (n : ℕ)
        → NoDelimiter a
        → live (ts.get s (create_state_key a n)) ≡ amount_str (amount_of n (utxos v a))
    pub once : (a : Text) → IsOnce (utxos v a)

  IsOnce-update :
      (v : Ledger) (k : Text) (ps : Utxos)
      → ((a : Text) → IsOnce (utxos v a))
      → IsOnce ps
      → (a : Text) → IsOnce (utxos (update v k ps) a)
  IsOnce-update v k ps h once a = elim (Bool-cases (text_eq k a)) [
    | inl same ↦ rw same once
    | inr differs ↦ rw differs (h a)
  ]

  -- A new reading of one key, and a new list of its address that differs only there.
  write-Agreement :
      (s s' : ts.State) (v : Ledger) (k : Text) (n : ℕ) (ps : Utxos) (o : Option Text)
      → NoDelimiter k
      → Agreement s v
      → IsOnce ps
      → ((j : Text) → ts.get s' j ≡ (if text_eq (create_state_key k n) j then o else ts.get s j))
      → live o ≡ amount_str (amount_of n ps)
      → ((m : ℕ) → (n == m) ≡ false → amount_of m ps ≡ amount_of m (utxos v k))
      → Agreement s' (update v k ps)
  write-Agreement s s' v k n ps o hk g once reads new others = record {
    once = IsOnce-update v k ps g.once once;
    at = λ a m ha. rw (reads (create_state_key a m)) (
        rw (key_eq k a n m hk ha) (elim (Bool-cases (text_eq k a)) [
          | inl same ↦ rw same (elim (Bool-cases (n == m)) [
            | inl number ↦
                rw number (new ∙ ap (λ i. amount_str (amount_of i ps)) ((==_iff n m).0 number))
            | inr other ↦ rw other (
                g.at a m ha
                ∙ ap (λ c. amount_str (amount_of m (utxos v c))) (sym (text_eq→eq k a same))
                ∙ ap amount_str (sym (others m other)))
          ])
          | inr differs ↦ rw differs (g.at a m ha)
        ]));
  }

  pub remove-Agreement :
      (s : ts.State) (v : Ledger) (k : Text) (n : ℕ) (qs : Utxos)
      → NoDelimiter k
      → Agreement s v
      → erase n (utxos v k) ≡ some qs
      → Agreement (ts.remove s (create_state_key k n)) (update v k qs)
  remove-Agreement s v k n qs hk g e =
      write-Agreement s _ v k n qs none hk g (erase-IsOnce n (utxos v k) qs (g.once k) e)
        (λ j. ts.get-remove s (create_state_key k n) j)
        (ap amount_str (sym (amount_of-erase_self n (utxos v k) qs (g.once k) e)))
        (λ m h. amount_of-erase_ne n m (utxos v k) qs h e)

  pub empty-Agreement :
      (s : ts.State) (v : Ledger) (k : Text) (n : ℕ) (qs : Utxos)
      → NoDelimiter k
      → Agreement s v
      → erase n (utxos v k) ≡ some qs
      → Agreement (ts.set s (create_state_key k n) []) (update v k qs)
  empty-Agreement s v k n qs hk g e =
      write-Agreement s _ v k n qs (some []) hk g (erase-IsOnce n (utxos v k) qs (g.once k) e)
        (λ j. ts.get-set s (create_state_key k n) j [])
        (ap amount_str (sym (amount_of-erase_self n (utxos v k) qs (g.once k) e)))
        (λ m h. amount_of-erase_ne n m (utxos v k) qs h e)

  amount_of-new :
      (n x : ℕ) (ps : Utxos) → amount_of n ps ≡ none → amount_of n (ps ++ (n, x) ∷ []) ≡ some x
  amount_of-new n x ps h = ground (arith, amount_of-append n x n ps)

  amount_of-other :
      (n x m : ℕ) (ps : Utxos) → (n == m) ≡ false → amount_of m (ps ++ (n, x) ∷ []) ≡ amount_of m ps
  amount_of-other n x m ps h = ground (arith, amount_of-append n x m ps)

  pub set-Agreement :
      (s : ts.State) (v : Ledger) (k : Text) (n x : ℕ)
      → NoDelimiter k
      → Agreement s v
      → amount_of n (utxos v k) ≡ none
      → Agreement (ts.set s (create_state_key k n) (str x)) (update v k (utxos v k ++ (n, x) ∷ []))
  set-Agreement s v k n x hk g e =
      write-Agreement s _ v k n _ (some (str x)) hk g (append-IsOnce n x (utxos v k) (g.once k) e)
        (λ j. ts.get-set s (create_state_key k n) j (str x))
        (live-str x ∙ ap amount_str (sym (amount_of-new n x (utxos v k) e)))
        (λ m h. amount_of-other n x m (utxos v k) h)
