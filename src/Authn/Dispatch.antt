-- ===== src/Authn/Dispatch.antt =====
-- Which requests an authenticator verifies and how: `authenticate` of both authenticators, `getVerkey`
-- of the token's, and `verkey_to_address` of sovtoken/sovtoken/util.py. The base class is indy's and
-- is a parameter.
use token_plugin.Prelude.{
  ℕ, ◌≡◌, refl, Bool, true, false, Option, none, some, List, [], ◌∷◌, if◌then◌else◌, length,
  contains,
}
use token_plugin.Text.{Text, text_eq}
use token_plugin.Errors.{Exn, Result, ok, err, ◌>>=◌, or_raise}
use token_plugin.Cache.{Input}
use token_plugin.Token.{Payment}
use token_plugin.Validation.{decode_address_to_vk_bytes}
use token_plugin.Authn.{Crypto, address_to_verkey, authenticate_xfer}

abbrev pub mint_public : Text
mint_public = b'1' ∷ b'0' ∷ b'0' ∷ b'0' ∷ b'0' ∷ []

abbrev pub xfer_public : Text
xfer_public = b'1' ∷ b'0' ∷ b'0' ∷ b'0' ∷ b'1' ∷ []

abbrev pub set_fees : Text
set_fees = b'2' ∷ b'0' ∷ b'0' ∷ b'0' ∷ b'0' ∷ []

-- A verifier: of a key, a signature and a message.
abbrev pub Verifier : Type 0
Verifier = Text → Text → Text → Bool

-- `verifier or …`
abbrev pub or_default : Option Verifier → Verifier → Verifier
or_default none d = d
or_default (some v) d = v

-- What is signed of a transfer, with the acceptance of the request.
pub record Transfer : Type 0 where
  pub inputs : List Input
  pub outputs : List Payment
  pub signatures : List Text
  pub extra : Option Text
  pub taa_acceptance : Option Text

-- `AddressSigVerifier` is the scheme's own verifier; the base class authenticates with the one it is
-- given.
module _ (crypto : Crypto) (did_verifier : Verifier) (base : Verifier → Result (List Text)) where
  -- `TokenAuthNr.authenticate`; requests of other types are not verified.
  unfoldable pub authenticate : Text → Transfer → Option Verifier → Result (Option (List Text))
  authenticate txn_type t verifier =
      if text_eq txn_type mint_public
      then base (or_default verifier did_verifier) >>= (λ r. ok (some r))
      else (if text_eq txn_type xfer_public
          then authenticate_xfer (record crypto { verify = or_default verifier crypto.verify })
              t.inputs t.outputs t.signatures t.extra t.taa_acceptance
            >>= (λ r. ok (some r))
          else ok none)

  -- `FeesAuthNr.authenticate`
  unfoldable pub fees_authenticate : Text → Option Verifier → Result (List Text)
  fees_authenticate txn_type verifier =
      if text_eq txn_type set_fees
      then base (or_default verifier did_verifier)
      else err Exn.invalid_client_request

module _ (crypto : Crypto) where
  -- An identifier of the length of a DID, or one whose key has not that of a key of 32 bytes, is left
  -- to the base class.
  unfoldable pub get_verkey : (Text → Result Text) → Text → Result Text
  get_verkey base ident = if contains (length ident) (21 ∷ 22 ∷ []) then base ident else (do
    vk ← address_to_verkey crypto ident
    if contains (length vk) (43 ∷ 44 ∷ []) then ok vk else base ident)

  unfoldable pub verkey_to_address : (List ℕ → Text) → Text → Result Text
  verkey_to_address b58encode_check verkey = do
    vk ← or_raise (crypto.b58decode verkey) Exn.value_error
    ok (b58encode_check vk)

  -- A key whose text decodes to it and has 43 or 44 characters, and whose address decodes to it and
  -- has not the length of a DID: the address is made from the verkey, and from the address the verkey
  -- is had again, without the base class.
  pub get_verkey-verkey_to_address :
      (b58encode_check : List ℕ → Text) (base : Text → Result Text) (vk : List ℕ)
      → crypto.b58decode (crypto.b58encode vk) ≡ some vk
      → crypto.b58decode_check (b58encode_check vk) ≡ some vk
      → contains (length (crypto.b58encode vk)) (43 ∷ 44 ∷ []) ≡ true
      → contains (length (b58encode_check vk)) (21 ∷ 22 ∷ []) ≡ false
      → (verkey_to_address b58encode_check (crypto.b58encode vk) ≡ ok (b58encode_check vk))
        × (get_verkey base (b58encode_check vk) ≡ ok (crypto.b58encode vk))
  unfolding verkey_to_address get_verkey address_to_verkey decode_address_to_vk_bytes
  get_verkey-verkey_to_address b58encode_check base vk decoded checked long no_did = (
    rw decoded refl,
    rw (no_did, get_verkey)
        (rw (checked, address_to_verkey, decode_address_to_vk_bytes) (rw long refl)),
  )
