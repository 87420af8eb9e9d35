-- ===== src/Errors.antt =====
-- sovtoken/sovtoken/exceptions.py and the exceptions of Python, plenum and indy that the plugin
-- raises or catches, with the results of code that may raise. Messages are not modelled.
pub mod Exec
use token_plugin.Prelude.{◌≡◌, refl, Bool, true, false, Option, none, some}

-- The classes; `UTXONotFound` is a `UTXOError`, and `UTXOAddressNotFound` a `UTXONotFound`.
pub data Exn : Type 0 where
  utxo_error utxo_not_found utxo_address_not_found : Exn
  token_value_error invalid_funds extra_funds insufficient_funds : Exn
  invalid_client_message invalid_client_request unauthorized operation_error : Exn
  unknown_identifier invalid_signature_format insufficient_correct_signatures : Exn
  value_error index_error key_error type_error plain_exception : Exn

-- `except UTXOError`
unfoldable pub is_utxo_error : Exn → Bool
is_utxo_error Exn.utxo_error = true
is_utxo_error Exn.utxo_not_found = true
is_utxo_error Exn.utxo_address_not_found = true
is_utxo_error _ = false

pub data Result {ℓ} (A : Type ℓ) : Type ℓ where
  ok : A → Result A
  err : Exn → Result A

-- `raise`, under a condition.
abbrev pub raise_if : Bool → Exn → Result (Unit {0})
raise_if false e = ok tt
raise_if true e = err e

-- `none` stands for the exception `e`.
abbrev pub or_raise {ℓ} : {A : Type ℓ} → Option A → Exn → Result A
or_raise none e = err e
or_raise (some a) e = ok a

-- `except`, for every exception: what the handler raises.
abbrev pub map_err {ℓ} : {A : Type ℓ} → (Exn → Exn) → Result A → Result A
map_err f (ok a) = ok a
map_err f (err e) = err (f e)

-- The statements after one that may raise.
infixl 5 ◌>>=◌
abbrev pub ◌>>=◌ {ℓ κ} : {A : Type ℓ} {C : Type κ} → Result A → (A → Result C) → Result C
◌>>=◌ (ok x) rest = rest x
◌>>=◌ (err e) rest = err e

infixl 5 ◌>>◌
abbrev pub ◌>>◌ {ℓ} : {C : Type ℓ} → Result (Unit {0}) → Result C → Result C
first >> rest = first >>= λ u. rest

-- Statements that return have each returned.
pub >>=-eq-ok {ℓ κ} :
    {A : Type ℓ} {C : Type κ} (m : Result A) (rest : A → Result C) {c : C}
    → (m >>= rest) ≡ ok c
    → (x : A) × (m ≡ ok x) × (rest x ≡ ok c)
>>=-eq-ok (err e) rest h = cc
>>=-eq-ok (ok x) rest h = (x, refl, h)
