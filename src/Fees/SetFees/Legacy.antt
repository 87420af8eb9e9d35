-- ===== src/Fees/SetFees/Legacy.antt =====
-- The handler of SET_FEES transactions of version 0.9.3:
-- sovtokenfees/sovtokenfees/req_handlers/write_handlers/set_fees_handler_0_9_3.py.
use token_plugin.Prelude.{◌≡◌, refl, ap, ◌∙◌, Option, none, some, [], ◌∷◌, false}
use token_plugin.Text.{Text, text_eq, text_eq_refl}
use token_plugin.Text.Split.{join}
use token_plugin.Errors.{Result, ok, ◌>>=◌}
use token_plugin.Storage.{TrieState}
use token_plugin.Fees.SetFees.{
  build_path_for_set_fees, Fees, table, Serializer, update, as_dict, decoded, get_fee_from_state,
  set_to_state,
}

-- `fees_state_key`, which is the text of `FEES_KEY_FOR_ALL` too.
abbrev pub fees_state_key : Text
fees_state_key = b'f' ∷ b'e' ∷ b'e' ∷ b's' ∷ []

module _ (ts : TrieState) (ser : Serializer) where
  unfoldable pub set_fees_093_update_state : Fees → ts.State → Result ts.State
  set_fees_093_update_state fees_from_req state = do
    current ← as_dict (get_fee_from_state ts ser state none)
    ok (set_to_state ts ser state fees_state_key (table (update current fees_from_req)))

  fees_state_key-differs :
      (o : Option Text) → text_eq fees_state_key (build_path_for_set_fees o) ≡ false
  unfolding text_eq build_path_for_set_fees join
  fees_state_key-differs none = refl
  fees_state_key-differs (some []) = refl
  fees_state_key-differs (some (c ∷ a)) = refl

  -- On a state with a readable table, the handler of 0.9.3 does not fail; it writes the table updated
  -- by the request under a key of its own, and leaves every fee that is read, of an alias or of all,
  -- as it was.
  pub set_fees_093_update_state_lem :
      (req : Fees) (s : ts.State) (d : Fees)
      → as_dict (get_fee_from_state ts ser s none) ≡ ok d
      → (s' : ts.State) × (set_fees_093_update_state req s ≡ ok s')
        × (ts.get s' fees_state_key ≡ some (ser.serialize (table (update d req))))
        × ((o : Option Text) → get_fee_from_state ts ser s' o ≡ get_fee_from_state ts ser s o)
  unfolding set_fees_093_update_state set_to_state get_fee_from_state
  set_fees_093_update_state_lem req s d known =
      let val = ser.serialize (table (update d req)) in
      (
        ts.set s fees_state_key val,
        rw known refl,
        ts.get-set s fees_state_key fees_state_key val ∙ rw (text_eq_refl fees_state_key) refl,
        λ o. ap (decoded ts ser) (
            ts.get-set s fees_state_key (build_path_for_set_fees o) val
            ∙ rw (fees_state_key-differs o) refl),
      )
