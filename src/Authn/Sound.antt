-- ===== src/Authn/Sound.antt =====
-- Payments are authenticated exactly if every input is signed.
use token_plugin.Prelude.{
  ℕ, true, Bool-cases, Option-cases, inl, inr, Option, none, some, suc, ◌+◌, ◌≤◌, ◌≡◌, refl, ap,
  sym, ◌∙◌, ◌↔◌, List, [], ◌∷◌, ◌++◌, arith, ◌==◌, if◌then◌else◌, length, length-append,
  append_assoc, append-nil,
}
use token_plugin.Text.{Text}
use token_plugin.Errors.{Exn, Result, ok, err, >>=-eq-ok}
use token_plugin.Cache.{Input}
use token_plugin.Token.{Payment}
use token_plugin.Authn.{
  Crypto, Outcome, correct, incorrect, skipped, check_one, correct_from,
  verify_signtures_on_payments, address_to_verkey, skip_value_error,
}
use token_plugin.Validation.{decode_address_to_vk_bytes}

abbrev pub addresses : List Input → List Text
addresses [] = []
addresses (i ∷ is) = i.address ∷ addresses is

module _ (crypto : Crypto) (outputs : List Payment) (extra : List Text) where
  -- The signature, decoded, verifies under the key in base58 that the address decodes to, over the
  -- input, the outputs and the extra fields.
  pub record IsSigned (i : Input) (s : Text) : Type 0 where
    pub sig_decoded : Text
    pub vk_bytes : List ℕ
    pub decoded : crypto.b58decode s ≡ some sig_decoded
    pub key : crypto.b58decode_check i.address ≡ some vk_bytes
    pub verified :
        crypto.verify (crypto.b58encode vk_bytes) sig_decoded (crypto.signed_data i outputs extra)
        ≡ true

  -- Each input has at its place a signature of its own.
  abbrev pub AreSigned : List Input → List Text → Type 0
  AreSigned [] sigs = Unit
  AreSigned (i ∷ is) [] = ⊥
  AreSigned (i ∷ is) (s ∷ sigs) = IsSigned i s × AreSigned is sigs

  check_one-IsSigned :
      (i : Input) (s : Text) → (check_one crypto outputs extra i s ≡ ok correct) ↔ IsSigned i s
  unfolding check_one address_to_verkey decode_address_to_vk_bytes skip_value_error
  check_one-IsSigned i s = (forward, λ h. rw (h.decoded, h.key, h.verified) refl)
    where
      forward : check_one crypto outputs extra i s ≡ ok correct → IsSigned i s
      forward e = elim (Option-cases (crypto.b58decode s)) [
        | inl bad ↦ cc (rw bad at e)
        | inr (sig, decoded) ↦ elim (Option-cases (crypto.b58decode_check i.address)) [
          | inl unknown ↦ cc (rw (decoded, unknown) at e)
          | inr (vk, key) ↦
              elim (Bool-cases
                (crypto.verify (crypto.b58encode vk) sig (crypto.signed_data i outputs extra))) [
                  | inl good ↦ record {
                    sig_decoded = sig;
                    vk_bytes = vk;
                    decoded = decoded;
                    key = key;
                    verified = good;
                  }
                  | inr wrong ↦ cc (rw (decoded, key, wrong) at e)
                ]
        ]
      ]

  length_bound :
      (is : List Input) (sigs done r : List Text)
      → correct_from crypto outputs extra is sigs done ≡ ok r
      → length r ≤ length done + length is
  unfolding correct_from
  length_bound [] sigs done r h = ground arith
  length_bound (i ∷ is) [] done r h = ground arith
  length_bound (i ∷ is) (s ∷ sigs) done r h =
      go (>>=-eq-ok (check_one crypto outputs extra i s) _ h) (λ d. length_bound is sigs d r)
    where
      go :
          (o : Outcome) × (check_one crypto outputs extra i s ≡ ok o)
            × (correct_from crypto outputs extra is sigs
                  (elim o [ correct ↦ done ++ i.address ∷ [] | incorrect ↦ done | skipped ↦ done ])
                ≡ ok r)
          → ((d : List Text)
              → correct_from crypto outputs extra is sigs d ≡ ok r
              → length r ≤ length d + length is)
          → length r ≤ length done + suc (length is)
      go (correct, e, rest) ih = omega (arith, ih _ rest, length-append done (i.address ∷ []))
      go (incorrect, e, rest) ih = omega (arith, ih _ rest)
      go (skipped, e, rest) ih = omega (arith, ih _ rest)

  full :
      (is : List Input) (sigs done r : List Text)
      → correct_from crypto outputs extra is sigs done ≡ ok r
      → length r ≡ length done + length is
      → AreSigned is sigs × (r ≡ done ++ addresses is)
  unfolding correct_from
  full [] sigs done r h e = (tt, sym (ok_inj h) ∙ sym (append-nil done))
    where
      ok_inj : Result.ok done ≡ ok r → done ≡ r
      ok_inj p = cc p
  full (i ∷ is) [] done r h e = absurd (ground arith)
  full (i ∷ is) (s ∷ sigs) done r h e =
      go (>>=-eq-ok (check_one crypto outputs extra i s) _ h) (λ d. full is sigs d r)
    where
      go :
          (o : Outcome) × (check_one crypto outputs extra i s ≡ ok o)
            × (correct_from crypto outputs extra is sigs
                  (elim o [ correct ↦ done ++ i.address ∷ [] | incorrect ↦ done | skipped ↦ done ])
                ≡ ok r)
          → ((d : List Text)
              → correct_from crypto outputs extra is sigs d ≡ ok r
              → length r ≡ length d + length is
              → AreSigned is sigs × (r ≡ d ++ addresses is))
          → AreSigned (i ∷ is) (s ∷ sigs) × (r ≡ done ++ addresses (i ∷ is))
      go (correct, c, rest) ih =
          let (signed, all) = ih _ rest (omega (arith, length-append done (i.address ∷ []))) in
          (
            ((check_one-IsSigned i s).0 c, signed),
            all ∙ append_assoc done (i.address ∷ []) (addresses is),
          )
      go (incorrect, c, rest) ih = absurd (omega (arith, length_bound is sigs done r rest))
      go (skipped, c, rest) ih = absurd (omega (arith, length_bound is sigs done r rest))

  signed_run :
      (is : List Input) (sigs done : List Text)
      → AreSigned is sigs
      → correct_from crypto outputs extra is sigs done ≡ ok (done ++ addresses is)
  unfolding correct_from
  signed_run [] sigs done h = ap ok (sym (append-nil done))
  signed_run (i ∷ is) [] done h = absurd h
  signed_run (i ∷ is) (s ∷ sigs) done h = rw ((check_one-IsSigned i s).1 h.0) (
      signed_run is sigs (done ++ i.address ∷ []) h.1
      ∙ ap ok (append_assoc done (i.address ∷ []) (addresses is)))

  length-addresses : (is : List Input) → length (addresses is) ≡ length is
  length-addresses [] = refl
  length-addresses (i ∷ is) = ap suc (length-addresses is)

  -- The payments are accepted exactly if each input has a signature at its place that verifies, over
  -- the input, the outputs and the extra fields, under the key that its address decodes to, and the result is then the addresses of the inputs; with one missing or
  -- wrong an exception is raised.
  pub verify_signtures_on_payments_iff :
      (inputs : List Input) (signatures r : List Text)
      → (verify_signtures_on_payments crypto inputs outputs signatures extra ≡ ok r)
        ↔ (AreSigned inputs signatures × (r ≡ addresses inputs))
  unfolding verify_signtures_on_payments
  verify_signtures_on_payments_iff inputs signatures r = (
    λ h. forward (>>=-eq-ok (correct_from crypto outputs extra inputs signatures []) _ h),
    λ h. rw (signed_run inputs signatures [] h.0) (ground (arith, length-addresses inputs)),
  )
    where
      forward :
          (d : List Text) × (correct_from crypto outputs extra inputs signatures [] ≡ ok d)
            × ((if length d == length inputs then ok d else err Exn.insufficient_correct_signatures)
                ≡ ok r)
          → AreSigned inputs signatures × (r ≡ addresses inputs)
      forward (d, run, e) =
          let same : length d ≡ length inputs = ground arith in
          let result : d ≡ r = ground arith in
          let (signed, all) = full inputs signatures [] d run (omega arith) in
          (signed, sym result ∙ all)

-- The fees, if there are any, are signed over the digest.
abbrev pub FeesAreSigned : Crypto → Option (List Input × List Payment × List Text) → Text → Type 0
FeesAreSigned crypto none digest = Unit
FeesAreSigned crypto (some (inputs, outputs, signatures)) digest =
    AreSigned crypto outputs (digest ∷ []) inputs signatures
