-- ===== src/Tests/Messages.antt =====
-- SET_FEES and GET_FEE requests, with plenum's fields as they are for texts and maps.
use token_plugin.Prelude.{
  ℕ, ◌≡◌, ◌≤◌, refl, true, false, none, some, List, [], ◌∷◌, arith, is_empty, leb, length, All,
  Option-cases, inl, inr, if◌then◌else◌,
}
use token_plugin.Prelude.Int.{ℤ, pos, negsuc}
use token_plugin.Text.{Text, text_eq}
use token_plugin.Errors.{Exn, Result, ok, err}
use token_plugin.Validation.{Message, Check}
use token_plugin.Fees.SetFees.{
  table, fees_key_for_all, Fees, update, get_fee_from_state, set_fees_update_state,
}
use token_plugin.Fees.SetFees.Consistent.{fee_of, AreNamed, IsConsistent}
use token_plugin.Fees.Messages.{
  Value, text, map_of, other_value, Operation, get, Schema, Fields, IsFields, IsNatural,
  txn_type_field, alias_field, fees_name, set_fees_type, get_fee_type, fee_alias_length,
  set_fees_field, get_fee_schema, set_fees_schema, set_fees_static_validation,
  get_fee_static_validation,
}
use token_plugin.Fees.Messages.Sound.{value_of, set_fees_request-IsConsistent, get_fee_request_lem}
use token_plugin.Tests.Samples.{Dict, ts, alice, bob, empty}
use token_plugin.Tests.FeeTable.{serializer, empty-IsConsistent}

abbrev wrong : Check
wrong = ok (some Message.other_message)

abbrev not_empty : Text → Check
not_empty [] = wrong
not_empty (c ∷ t) = ok none

abbrev not_negative : ℤ → Check
not_negative (pos n) = ok none
not_negative (negsuc n) = wrong

abbrev constant : Text → Value → Check
constant c (text t) = if text_eq t c then ok none else wrong
constant c _ = wrong

abbrev limited_text : ℕ → Value → Check
limited_text n (text []) = wrong
limited_text n (text (c ∷ t)) = if leb (length (c ∷ t)) n then ok none else wrong
limited_text n _ = wrong

abbrev after : Check → Check → Check
after (ok none) rest = rest
after _ rest = wrong

abbrev each_entry : (Text → Check) → (ℤ → Check) → List (Text × ℤ) → Check
each_entry k c [] = ok none
each_entry k c ((t, z) ∷ d) = after (k t) (after (c z) (each_entry k c d))

abbrev map_passes : (Text → Check) → (ℤ → Check) → Value → Check
map_passes k c (map_of d) = each_entry k c d
map_passes k c _ = wrong

abbrev checked : Check → Result (Unit {0}) → Result (Unit {0})
checked (ok none) rest = rest
checked _ rest = err Exn.type_error

abbrev make : Schema → Operation → Result (Unit {0})
make [] op = ok tt
make ((k, c) ∷ s) op = elim (get k op) [
  | none ↦ err Exn.type_error
  | some v ↦ checked (c v) (make s op)
]

abbrev fields : Fields
fields = record {
  constant_field = constant;
  limited_length_string_field = limited_text;
  non_empty_string_field = not_empty;
  non_negative_number_field = not_negative;
  map_field = map_passes;
  field_base = λ c v. c v;
  message_base = make;
}

limited_text_lem :
    (n : ℕ) (v : Value)
    → limited_text n v ≡ ok none
    → (t : Text) × (v ≡ text t) × (is_empty t ≡ false) × (length t ≤ n)
limited_text_lem n (text []) h = cc h
limited_text_lem n (text (c ∷ t)) h = (c ∷ t, refl, refl, ground arith)
limited_text_lem n (map_of d) h = cc h
limited_text_lem n other_value h = cc h

not_empty_lem : (t : Text) → not_empty t ≡ ok none → is_empty t ≡ false
not_empty_lem [] h = cc h
not_empty_lem (c ∷ t) h = refl

not_negative-IsNatural : (z : ℤ) → not_negative z ≡ ok none → IsNatural z
not_negative-IsNatural (pos n) h = (n, refl)
not_negative-IsNatural (negsuc n) h = cc h

after_lem : (c rest : Check) → after c rest ≡ ok none → (c ≡ ok none) × (rest ≡ ok none)
after_lem (ok none) rest h = (refl, h)
after_lem (ok (some m)) rest h = cc h
after_lem (err e) rest h = cc h

each_entry_lem :
    (k : Text → Check) (c : ℤ → Check) (d : List (Text × ℤ))
    → each_entry k c d ≡ ok none
    → All (λ e. (k e.0 ≡ ok none) × (c e.1 ≡ ok none)) d
each_entry_lem k c [] h = tt
each_entry_lem k c ((t, z) ∷ d) h =
    let (named, h) = after_lem (k t) (after (c z) (each_entry k c d)) h in
    let (counted, h) = after_lem (c z) (each_entry k c d) h in
    ((named, counted), each_entry_lem k c d h)

map_passes_lem :
    (k : Text → Check) (c : ℤ → Check) (v : Value)
    → map_passes k c v ≡ ok none
    → (d : List (Text × ℤ)) × (v ≡ map_of d) × All (λ e. (k e.0 ≡ ok none) × (c e.1 ≡ ok none)) d
map_passes_lem k c (map_of d) h = (d, refl, each_entry_lem k c d h)
map_passes_lem k c (text t) h = cc h
map_passes_lem k c other_value h = cc h

checked_lem :
    (c : Check) (rest : Result (Unit {0})) → checked c rest ≡ ok tt → (c ≡ ok none) × (rest ≡ ok tt)
checked_lem (ok none) rest h = (refl, h)
checked_lem (ok (some m)) rest h = cc h
checked_lem (err e) rest h = cc h

make_lem :
    (s : Schema) (op : Operation)
    → make s op ≡ ok tt
    → All (λ e. (v : Value) × (get e.0 op ≡ some v) × (e.1 v ≡ ok none)) s
make_lem [] op h = tt
make_lem ((k, c) ∷ s) op h = elim (Option-cases (get k op)) [
  | inl missing ↦ cc (rw (missing, make) at h)
  | inr (v, there) ↦
      let (passed, rest) = checked_lem (c v) (make s op) (rw (there, make) at h) in
      ((v, there, passed), make_lem s op rest)
]

fields-IsFields : IsFields fields
fields-IsFields = record {
  limited = limited_text_lem;
  non_empty = not_empty_lem;
  non_negative = not_negative-IsNatural;
  mapped = map_passes_lem;
  specific = λ c v h. h;
  made = make_lem;
}

abbrev fees : Fees
fees = (alice, 4) ∷ (bob, 0) ∷ []

abbrev set_fees : Operation
set_fees = (txn_type_field, text set_fees_type) ∷ (fees_name, value_of fees) ∷ []

abbrev get_fee : Operation
get_fee = (alias_field, text fees_key_for_all) ∷ (txn_type_field, text get_fee_type) ∷ []

set_fees_passes : set_fees_static_validation fields set_fees ≡ ok tt
unfolding set_fees_static_validation set_fees_schema set_fees_field text_eq
set_fees_passes = refl

get_fee_passes : get_fee_static_validation fields get_fee ≡ ok tt
unfolding get_fee_static_validation get_fee_schema text_eq
get_fee_passes = refl

set_fees_request-IsConsistent_example :
    (named : Fees) × (get fees_name set_fees ≡ some (value_of named))
    × AreNamed named
    × ((s' : Dict) × (set_fees_update_state ts serializer named empty ≡ ok s')
        × IsConsistent ts serializer s' (update [] named)
        × (get_fee_from_state ts serializer s' (some fees_key_for_all)
            ≡ some (table (update [] named))))
set_fees_request-IsConsistent_example =
    set_fees_request-IsConsistent fields fields-IsFields ts serializer empty [] empty-IsConsistent
      set_fees set_fees_passes

get_fee_request_lem_example :
    (alias : Text) × (get alias_field get_fee ≡ some (text alias))
    × (is_empty alias ≡ false)
    × (length alias ≤ fee_alias_length)
    × (text_eq fees_key_for_all alias ≡ false
        → get_fee_from_state ts serializer empty (some alias) ≡ fee_of alias [])
    × (text_eq fees_key_for_all alias ≡ true
        → get_fee_from_state ts serializer empty (some alias)
          ≡ get_fee_from_state ts serializer empty none)
get_fee_request_lem_example =
    get_fee_request_lem fields fields-IsFields ts serializer empty [] empty-IsConsistent get_fee
      get_fee_passes
