-- ===== src/Fees/SetFees/Consistent.antt =====
-- SET_FEES keeps the fee of each alias and the table of all fees in step.
use token_plugin.Prelude.{
  ℕ, ◌≡◌, refl, ap, sym, ◌∙◌, ◌↔◌, ◌⊎◌, Bool, true, false, Option, none, some, [], ◌∷◌, arith,
  if◌then◌else◌, All, is_empty, inl, inr,
}
use token_plugin.Text.{Text, text_eq, text_eq_iff, text_eq→eq, text_eq_refl}
use token_plugin.Errors.{ok}
use token_plugin.Storage.{TrieState}
use token_plugin.Fees.SetFees.{
  fees_key_for_all, build_path_for_set_fees, Fees, FeeValue, number, table, Serializer, set_entry,
  update, as_dict, decoded, get_fee_from_state, set_to_state, set_each, set_fees_update_state,
}

-- The fee of an alias in the table.
abbrev pub fee_of : Text → Fees → Option FeeValue
fee_of a [] = none
fee_of a ((k, x) ∷ d) = if text_eq k a then some (number x) else fee_of a d

-- An alias with a key of its own: not empty, and not the name of the table's key.
abbrev pub IsPlain : Text → Type 0
IsPlain a = (is_empty a ≡ false) × (text_eq fees_key_for_all a ≡ false)

abbrev pub AreNamed : Fees → Type 0
AreNamed = All (λ e. is_empty e.0 ≡ false)

fee_of-set_entry :
    (k a : Text) (x : ℕ) (d : Fees)
    → fee_of a (set_entry k x d) ≡ (if text_eq k a then some (number x) else fee_of a d)
unfolding set_entry
fee_of-set_entry k a x [] = refl
fee_of-set_entry k a x ((j, y) ∷ d) =
    ground (arith, fee_of-set_entry k a x d, text_eq_iff j k, text_eq_iff j a, text_eq_iff k a)

path_eq :
    (k a : Text)
    → is_empty k ≡ false
    → is_empty a ≡ false
    → text_eq (build_path_for_set_fees (some k)) (build_path_for_set_fees (some a)) ≡ text_eq k a
unfolding build_path_for_set_fees text_eq
path_eq [] a hk ha = cc hk
path_eq (c ∷ k) [] hk ha = cc ha
path_eq (c ∷ k) (d ∷ a) hk ha = refl

path_eq_all :
    (a : Text)
    → is_empty a ≡ false
    → text_eq (build_path_for_set_fees none) (build_path_for_set_fees (some a))
      ≡ text_eq fees_key_for_all a
unfolding build_path_for_set_fees
path_eq_all [] ha = cc ha
path_eq_all (d ∷ a) ha = unfold text_eq in refl

-- An alias shares the key of the table exactly if it is empty or 'fees'.
pub build_path_for_set_fees_collides :
    (a : Text)
    → (build_path_for_set_fees (some a) ≡ build_path_for_set_fees none)
      ↔ ((a ≡ []) ⊎ (a ≡ fees_key_for_all))
build_path_for_set_fees_collides [] = (λ e. inl refl, λ h. unfold build_path_for_set_fees in refl)
build_path_for_set_fees_collides (c ∷ a) = (λ e. inr (same e), shared)
  where
    same :
        build_path_for_set_fees (some (c ∷ a)) ≡ build_path_for_set_fees none
        → c ∷ a ≡ fees_key_for_all
    same e = sym (
        text_eq→eq fees_key_for_all (c ∷ a)
          (sym (path_eq_all (c ∷ a) refl) ∙ (text_eq_iff _ _).1 (sym e)))

    shared :
        (c ∷ a ≡ []) ⊎ (c ∷ a ≡ fees_key_for_all)
        → build_path_for_set_fees (some (c ∷ a)) ≡ build_path_for_set_fees none
    shared (inl h) = cc h
    shared (inr h) = sym (text_eq→eq _ _ (path_eq_all (c ∷ a) refl ∙ (text_eq_iff _ _).1 (sym h)))

module _ (ts : TrieState) (ser : Serializer) where
  decoded-serialize : (v : FeeValue) → decoded ts ser (some (ser.serialize v)) ≡ some v
  unfolding decoded
  decoded-serialize v = go (ser.serialize v) (ser.serialize-ne-nil v) (ser.deserialize-serialize v)
    where
      go : (s : Text) → ¬ (s ≡ []) → ser.deserialize s ≡ v → decoded ts ser (some s) ≡ some v
      go [] ne e = absurd (ne refl)
      go (c ∷ s) ne e = ap some e

  pub get-set_to_state :
      (s : ts.State) (k : Text) (v : FeeValue) (o : Option Text)
      → get_fee_from_state ts ser (set_to_state ts ser s k v) o
        ≡ (if text_eq k (build_path_for_set_fees o) then some v else get_fee_from_state ts ser s o)
  unfolding get_fee_from_state set_to_state
  get-set_to_state s k v o =
      ap (decoded ts ser) (ts.get-set s k (build_path_for_set_fees o) (ser.serialize v))
      ∙ go (text_eq k (build_path_for_set_fees o))
    where
      go :
          (b : Bool)
          → decoded ts ser
              (if b then some (ser.serialize v) else ts.get s (build_path_for_set_fees o))
            ≡ (if b then some v else decoded ts ser (ts.get s (build_path_for_set_fees o)))
      go true = decoded-serialize v
      go false = refl

  -- Each alias that has its own key has there its fee of the table.
  pub record AliasesAgree (s : ts.State) (d : Fees) : Type 0 where
    pub at : (a : Text) → IsPlain a → get_fee_from_state ts ser s (some a) ≡ fee_of a d

  pub record IsConsistent (s : ts.State) (d : Fees) : Type 0 where
    pub current : as_dict (get_fee_from_state ts ser s none) ≡ ok d
    pub aliases : AliasesAgree s d

  set_each-AliasesAgree :
      (req : Fees) (s : ts.State) (d : Fees)
      → AreNamed req
      → AliasesAgree s d
      → AliasesAgree (set_each ts ser req s) (update d req)
  unfolding set_each update
  set_each-AliasesAgree [] s d named g = g
  set_each-AliasesAgree ((k, x) ∷ r) s d named g =
      set_each-AliasesAgree r _ (set_entry k x d) named.1 (record {
        at = λ a plain.
            get-set_to_state s (build_path_for_set_fees (some k)) (number x) (some a)
            ∙ rw (path_eq k a named.0 plain.0)
                (ap (λ o. if text_eq k a then some (number x) else o) (g.at a plain))
            ∙ sym (fee_of-set_entry k a x d);
      })

  as_dict-table : (d : Fees) → as_dict (some (table d)) ≡ ok d
  unfolding as_dict
  as_dict-table d = refl

  -- SET_FEES of aliases that are not empty does not fail on a consistent state, and leaves one in
  -- which the table is updated by the fees of the request and each alias, other than the empty one
  -- and 'fees', has its fee of the table.
  pub set_fees_update_state-IsConsistent :
      (req : Fees) (s : ts.State) (d : Fees)
      → AreNamed req
      → IsConsistent s d
      → (s' : ts.State) × (set_fees_update_state ts ser req s ≡ ok s')
        × IsConsistent s' (update d req)
  unfolding set_fees_update_state
  set_fees_update_state-IsConsistent req s d named g =
      let s' =
        set_to_state ts ser (set_each ts ser req s) (build_path_for_set_fees none)
          (table (update d req)) in
      (
        s',
        rw g.current refl,
        record {
          current =
              ap as_dict (
                get-set_to_state (set_each ts ser req s) (build_path_for_set_fees none)
                  (table (update d req)) none
                ∙ rw (text_eq_refl (build_path_for_set_fees none)) refl)
              ∙ as_dict-table (update d req);
          aliases = record {
            at = λ a plain.
                get-set_to_state (set_each ts ser req s) (build_path_for_set_fees none)
                  (table (update d req)) (some a)
                ∙ rw (path_eq_all a plain.0 ∙ plain.1)
                    ((set_each-AliasesAgree req s d named g.aliases).at a plain);
          };
        },
      )
