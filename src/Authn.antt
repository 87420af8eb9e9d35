-- ===== src/Authn.antt =====
-- The signatures on payments: sovtoken/sovtoken/client_authnr.py and `address_to_verkey` of
-- sovtoken/sovtoken/util.py. Base58, the serialisation of the signed data and the signature scheme
-- are parameters.
pub mod Sound
pub mod Dispatch
use token_plugin.Prelude.{
  ℕ, Bool, true, false, Option, none, some, List, [], ◌∷◌, ◌++◌, ◌==◌, if◌then◌else◌, length,
}
use token_plugin.Text.{Text, text_eq}
use token_plugin.Errors.{Exn, Result, ok, err, ◌>>=◌, or_raise}
use token_plugin.Cache.{Input}
use token_plugin.Token.{Payment}
use token_plugin.Validation.{decode_address_to_vk_bytes}

-- What the code takes from elsewhere: `none` of a decoder is an exception of base58.
pub record Crypto : Type 0 where
  pub b58decode : Text → Option Text
  pub b58decode_check : Text → Option (List ℕ)
  pub b58encode : List ℕ → Text
  pub signed_data : Input → List Payment → List Text → Text
  pub verify : Text → Text → Text → Bool

pub data Outcome : Type 0 where
  correct incorrect skipped : Outcome

unfoldable pub address_to_verkey : Crypto → Text → Result Text
address_to_verkey crypto address = do
  vk_bytes ← decode_address_to_vk_bytes crypto.b58decode_check address
  ok (crypto.b58encode vk_bytes)

-- `except ValueError: continue`
unfoldable pub skip_value_error : Exn → Result Outcome
skip_value_error Exn.value_error = ok skipped
skip_value_error e = err e

-- One round of the loop.
unfoldable pub check_one : Crypto → List Payment → List Text → Input → Text → Result Outcome
unfolding skip_value_error
check_one crypto outputs extra inp sig = do
  sig_decoded ← or_raise (crypto.b58decode sig) Exn.invalid_signature_format
  elim (address_to_verkey crypto inp.address) [
    | ok verkey ↦
        if crypto.verify verkey sig_decoded (crypto.signed_data inp outputs extra)
        then ok correct
        else ok incorrect
    | err e ↦ skip_value_error e
  ]

-- The addresses whose signatures are correct, in order; the loop ends with the shorter list.
unfoldable pub correct_from :
    Crypto → List Payment → List Text → List Input → List Text → List Text → Result (List Text)
correct_from crypto outputs extra [] sigs done = ok done
correct_from crypto outputs extra (i ∷ is) [] done = ok done
correct_from crypto outputs extra (i ∷ is) (s ∷ sigs) done = do
  outcome ← check_one crypto outputs extra i s
  correct_from crypto outputs extra is sigs
      (elim outcome [ correct ↦ done ++ i.address ∷ [] | incorrect ↦ done | skipped ↦ done ])

unfoldable pub verify_signtures_on_payments :
    Crypto → List Input → List Payment → List Text → List Text → Result (List Text)
verify_signtures_on_payments crypto inputs outputs signatures extra = do
  correct_sigs_from ← correct_from crypto outputs extra inputs signatures []
  if length correct_sigs_from == length inputs
      then ok correct_sigs_from
      else err Exn.insufficient_correct_signatures

-- `authenticate_xfer`: the extra data and the acceptance are signed too, where they are given.
unfoldable pub extra_fields : Option Text → Option Text → List Text
extra_fields none none = []
extra_fields none (some taa) = taa ∷ []
extra_fields (some extra) none = extra ∷ []
extra_fields (some extra) (some taa) = extra ∷ taa ∷ []

unfoldable pub authenticate_xfer :
    Crypto → List Input → List Payment → List Text → Option Text → Option Text → Result (List Text)
authenticate_xfer crypto inputs outputs signatures extra taa =
    verify_signtures_on_payments crypto inputs outputs signatures (extra_fields extra taa)

-- `FeesAuthNr.verify_signature` of sovtokenfees/sovtokenfees/client_authnr.py: the three items of the
-- fees of a request, if it has fees, and the digest of its payload.
unfoldable pub verify_signature :
    Crypto → Option (List Input × List Payment × List Text) → Text → Result (Option (List Text))
verify_signature crypto none payload_digest = ok none
verify_signature crypto (some (inputs, outputs, signatures)) payload_digest = do
  r ← verify_signtures_on_payments crypto inputs outputs signatures (payload_digest ∷ [])
  ok (some r)
