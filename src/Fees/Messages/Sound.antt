-- ===== src/Fees/Messages/Sound.antt =====
-- What SET_FEES and GET_FEE do with the fees in the state after their static validation.
use token_plugin.Prelude.{
  ◌⊎◌, ◌≡◌, ◌≤◌, refl, ap, ap₂, sym, ◌∙◌, true, false, none, some, List, [], ◌∷◌, is_empty, length,
  All, inr,
}
use token_plugin.Prelude.Int.{ℤ, pos}
use token_plugin.Text.{Text, text_eq, text_eq→eq}
use token_plugin.Errors.{Exn, Result, ok, err, map_err, ◌>>=◌}
use token_plugin.Storage.{TrieState}
use token_plugin.Validation.{Message, Check}
use token_plugin.Fees.SetFees.{
  fees_key_for_all, Fees, Serializer, table, update, decoded, get_fee_from_state,
  set_fees_update_state,
}
use token_plugin.Fees.SetFees.Consistent.{
  fee_of, AreNamed, IsConsistent, set_fees_update_state-IsConsistent,
  build_path_for_set_fees_collides,
}
use token_plugin.Fees.Read.Current.{updated_table}
use token_plugin.Fees.Messages.{
  Value, text, map_of, Operation, get, Fields, IsFields, alias_field, fees_name, fee_alias_length,
  set_fees_field, get_fee_schema, set_fees_schema, set_fees_static_validation,
  get_fee_static_validation,
}

-- The fees as the request has them.
abbrev pub entries_of : Fees → List (Text × ℤ)
entries_of [] = []
entries_of ((k, n) ∷ fees) = (k, pos n) ∷ entries_of fees

abbrev pub value_of : Fees → Value
value_of fees = map_of (entries_of fees)

map_err-eq-ok : (g : Exn → Exn) (r : Result (Unit {0})) → map_err g r ≡ ok tt → r ≡ ok tt
map_err-eq-ok g (ok u) e = e
map_err-eq-ok g (err x) e = cc e

quiet :
    (c : Check)
    → (c >>= λ m. elim m [ some e ↦ ok (some Message.other_message) | none ↦ ok none ]) ≡ ok none
    → c ≡ ok none
quiet (ok none) h = refl
quiet (ok (some e)) h = cc h
quiet (err e) h = cc h

module _ (f : Fields) (laws : IsFields f) where
  -- A map that passes has natural numbers under names that are not empty.
  natural_fees :
      (d : List (Text × ℤ))
      → All
          (λ e.
            (f.non_empty_string_field e.0 ≡ ok none) × (f.non_negative_number_field e.1 ≡ ok none))
          d
      → (fees : Fees) × (d ≡ entries_of fees) × AreNamed fees
  natural_fees [] h = ([], refl, tt)
  natural_fees ((k, z) ∷ d) ((named, counted), h) =
      let (n, e) = laws.non_negative z counted in
      let (fees, same, names) = natural_fees d h in
      ((k, n) ∷ fees, ap₂ (λ y r. (k, y) ∷ r) e same, (laws.non_empty k named, names))

  module _ (ts : TrieState) (ser : Serializer) (s : ts.State) (d : Fees)
      (g : IsConsistent ts ser s d) where
    shared_key :
        (s' : ts.State) (alias : Text)
        → (alias ≡ []) ⊎ (alias ≡ fees_key_for_all)
        → get_fee_from_state ts ser s' (some alias) ≡ get_fee_from_state ts ser s' none
    unfolding get_fee_from_state
    shared_key s' alias h =
        ap (λ k. decoded ts ser (ts.get s' k)) ((build_path_for_set_fees_collides alias).1 h)

    -- A SET_FEES request that passes the static validation has fees, natural numbers under aliases
    -- that are not empty. On a consistent state its update of the state returns and leaves a
    -- consistent one, with the table of fees updated by those of the request: every alias other than
    -- 'fees' has its fee of the table. For the alias 'fees' the table itself is read.
    pub set_fees_request-IsConsistent :
        (op : Operation)
        → set_fees_static_validation f op ≡ ok tt
        → (fees : Fees) × (get fees_name op ≡ some (value_of fees))
          × AreNamed fees
          × ((s' : ts.State) × (set_fees_update_state ts ser fees s ≡ ok s')
              × IsConsistent ts ser s' (update d fees)
              × (get_fee_from_state ts ser s' (some fees_key_for_all)
                  ≡ some (table (update d fees))))
    unfolding set_fees_static_validation set_fees_schema set_fees_field
    set_fees_request-IsConsistent op h =
        let (v, there, passed) = (laws.made (set_fees_schema f) op (map_err-eq-ok _ _ h)).1.0 in
        let (entries, same, each) = laws.mapped _ _ v (quiet _ (laws.specific _ v passed)) in
        let (fees, listed, named) = natural_fees entries each in
        (
          fees,
          there ∙ ap some (same ∙ ap map_of listed),
          named,
          updated fees (set_fees_update_state-IsConsistent ts ser fees s d named g),
        )
      where
        updated :
            (fees : Fees)
            → (s' : ts.State) × (set_fees_update_state ts ser fees s ≡ ok s')
              × IsConsistent ts ser s' (update d fees)
            → (s' : ts.State) × (set_fees_update_state ts ser fees s ≡ ok s')
              × IsConsistent ts ser s' (update d fees)
              × (get_fee_from_state ts ser s' (some fees_key_for_all)
                  ≡ some (table (update d fees)))
        updated fees (s', run, after) = (
          s',
          run,
          after,
          shared_key s' fees_key_for_all (inr refl)
              ∙ updated_table ts ser fees d s s' g.current run,
        )

    -- A GET_FEE request that passes the static validation has an alias of 1 to 128 characters. On a
    -- consistent state the fee that is read for it is the one in the table, unless the alias is
    -- 'fees': then the table itself is read.
    pub get_fee_request_lem :
        (op : Operation)
        → get_fee_static_validation f op ≡ ok tt
        → (alias : Text) × (get alias_field op ≡ some (text alias))
          × (is_empty alias ≡ false)
          × (length alias ≤ fee_alias_length)
          × (text_eq fees_key_for_all alias ≡ false
              → get_fee_from_state ts ser s (some alias) ≡ fee_of alias d)
          × (text_eq fees_key_for_all alias ≡ true
              → get_fee_from_state ts ser s (some alias) ≡ get_fee_from_state ts ser s none)
    unfolding get_fee_static_validation get_fee_schema get_fee_from_state
    get_fee_request_lem op h =
        let (v, there, passed) = (laws.made (get_fee_schema f) op (map_err-eq-ok _ _ h)).1.0 in
        let (alias, same, named, short) = laws.limited _ v passed in
        (
          alias,
          there ∙ ap some same,
          named,
          short,
          (λ other. g.aliases.at alias (named, other)),
          λ shared. shared_key s alias (inr (sym (text_eq→eq _ _ shared))),
        )
