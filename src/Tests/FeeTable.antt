-- ===== src/Tests/FeeTable.antt =====
-- SET_FEES with a concrete serializer.
use token_plugin.Prelude.{
  Option, some, zero, suc, ◌≡◌, refl, ap, ◌∙◌, ◌≢◌, [], ◌∷◌, ◌++◌, append-nil,
}
use token_plugin.Text.{Text}
use token_plugin.Errors.{ok}
use token_plugin.Fees.SetFees.{
  Fees, FeeValue, number, table, Serializer, update, get_fee_from_state, decoded, as_dict,
}
use token_plugin.Fees.SetFees.Consistent.{IsConsistent}
use token_plugin.Fees.SetFees.Legacy.{
  fees_state_key, set_fees_093_update_state, set_fees_093_update_state_lem,
}
use token_plugin.Tests.Samples.{Dict, ts, alice, bob, empty}

-- A key is written with its code points raised by one, after a 0 and the fee.
abbrev pub shift : Text → Text → Text
shift [] t = t
shift (c ∷ k) t = suc c ∷ shift k t

abbrev pub flat : Fees → Text
flat [] = []
flat ((k, x) ∷ r) = zero ∷ x ∷ shift k (flat r)

-- The key in front, and the entries behind it.
abbrev pub unflat : Text → Text × Fees
unflat [] = ([], [])
unflat (zero ∷ []) = ([], [])
unflat (zero ∷ x ∷ s) = let (k, d) = unflat s in ([], (k, x) ∷ d)
unflat (suc c ∷ s) = let (k, d) = unflat s in (c ∷ k, d)

unflat-shift : (k t : Text) → unflat (shift k t) ≡ (k ++ (unflat t).0, (unflat t).1)
unflat-shift [] t = refl
unflat-shift (c ∷ k) t = ap (λ p. (c ∷ p.0, p.1)) (unflat-shift k t)

unflat-flat : (d : Fees) → unflat (flat d) ≡ ([], d)
unflat-flat [] = refl
unflat-flat ((k, x) ∷ r) =
    ap (λ p. ([], (p.0, x) ∷ p.1))
      (unflat-shift k (flat r)
        ∙ ap (λ p. (k ++ p.0, p.1)) (unflat-flat r)
        ∙ ap (λ l. (l, r)) (append-nil k))

abbrev pub serialize : FeeValue → Text
serialize (number n) = zero ∷ n ∷ []
serialize (table d) = suc zero ∷ flat d

abbrev pub deserialize : Text → FeeValue
deserialize (zero ∷ n ∷ s) = number n
deserialize (suc c ∷ s) = table ((unflat s).1)
deserialize _ = number 0

pub deserialize-serialize : (v : FeeValue) → deserialize (serialize v) ≡ v
deserialize-serialize (number n) = refl
deserialize-serialize (table d) = ap (λ p. table (p.1)) (unflat-flat d)

pub serialize-ne-nil : (v : FeeValue) → serialize v ≢ []
serialize-ne-nil (number n) = λ e. cc e
serialize-ne-nil (table d) = λ e. cc e

abbrev pub serializer : Serializer
serializer = record {
  serialize = serialize;
  deserialize = deserialize;
  deserialize-serialize = deserialize-serialize;
  serialize-ne-nil = serialize-ne-nil;
}

abbrev pub request : Fees
request = (alice, 4) ∷ (bob, 0) ∷ (alice, 6) ∷ []

pub empty-IsConsistent : IsConsistent ts serializer empty []
unfolding get_fee_from_state decoded as_dict
empty-IsConsistent = record { current = refl; aliases = record { at = λ a plain. refl } }

set_fees_093_update_state_lem_example :
    (s' : Dict) × (set_fees_093_update_state ts serializer request empty ≡ ok s')
    × (s' fees_state_key ≡ some (serialize (table (update [] request))))
    × ((o : Option Text)
        → get_fee_from_state ts serializer s' o ≡ get_fee_from_state ts serializer empty o)
set_fees_093_update_state_lem_example =
    set_fees_093_update_state_lem ts serializer request empty [] empty-IsConsistent.current
