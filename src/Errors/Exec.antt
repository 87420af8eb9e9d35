-- ===== src/Errors/Exec.antt =====
-- Code that changes shared state and may raise: what was written before a raise stays written, so
-- the state comes back beside the exception.
use token_plugin.Prelude.{◌≡◌, refl, ap, ◌∙◌, List, [], ◌∷◌}
use token_plugin.Errors.{Exn, Result, ok, err}

abbrev pub Exec {ℓ} : Type ℓ → Type ℓ → Type ℓ
Exec S A = S → Result A × S

abbrev pub pure {ℓ} : {S A : Type ℓ} → A → Exec S A
pure a s = (ok a, s)

infixl 5 ◌>>=◌ ◌>>◌
abbrev pub ◌>>=◌ {ℓ} : {S A B : Type ℓ} → Exec S A → (A → Exec S B) → Exec S B
◌>>=◌ m f s = let (r, s') = m s in elim r [ ok a ↦ f a s' | err e ↦ (err e, s') ]

abbrev pub ◌>>◌ {ℓ} : {S A B : Type ℓ} → Exec S A → Exec S B → Exec S B
m >> k = m >>= λ _. k

-- `except`, for every exception: the state is what the body left.
abbrev pub catch_as {ℓ} : {S A : Type ℓ} → (Exn → Exn) → Exec S A → Exec S A
catch_as f m s = let (r, s') = m s in elim r [ ok a ↦ (ok a, s') | err e ↦ (err (f e), s') ]

-- A `for` loop whose body may raise.
unfoldable pub for_each {ℓ} : {S A : Type ℓ} → List A → (A → Exec S (Unit {ℓ})) → Exec S (Unit {ℓ})
for_each [] body = pure tt
for_each (x ∷ xs) body = body x >> for_each xs body

-- A first part that returns hands its state to the rest.
pub seq-ok :
    {S : Type 0} (m k : Exec S (Unit {0})) (s t : S) (r : Result (Unit {0}) × S)
    → m s ≡ (ok tt, t)
    → k t ≡ r
    → (m >> k) s ≡ r
seq-ok m k s t r h e = ap (λ p. (◌>>◌ (λ u. p) k) s) h ∙ e

-- A sequence that returns has run both its parts.
pub seq-eq-ok :
    {S : Type 0} (m k : Exec S (Unit {0})) (s t : S)
    → (m >> k) s ≡ (ok tt, t)
    → (u : S) × (m s ≡ (ok tt, u)) × (k u ≡ (ok tt, t))
seq-eq-ok {S = S} m k s t h = go (m s) refl h
  where
    go :
        (p : Result (Unit {0}) × S)
        → m s ≡ p
        → (◌>>◌ (λ u. p) k) s ≡ (ok tt, t)
        → (u : S) × (m s ≡ (ok tt, u)) × (k u ≡ (ok tt, t))
    go (ok x, u) e h = (u, e, h)
    go (err x, u) e h = cc (h)

-- A body that returns is not caught.
pub catch-ok :
    {S : Type 0} (f : Exn → Exn) (m : Exec S (Unit {0})) (s t : S)
    → m s ≡ (ok tt, t)
    → catch_as f m s ≡ (ok tt, t)
catch-ok f m s t h = ap (λ p. catch_as f (λ u. p) s) h

pub catch-eq-ok :
    {S : Type 0} (f : Exn → Exn) (m : Exec S (Unit {0})) (s : S)
    → (catch_as f m s).0 ≡ ok tt
    → m s ≡ (ok tt, (m s).1)
catch-eq-ok {S = S} f m s h = go (m s) h
  where
    go : (p : Result (Unit {0}) × S) → (catch_as f (λ u. p) s).0 ≡ ok tt → p ≡ (ok tt, p.1)
    go (ok x, t) e = refl
    go (err x, t) e = cc e
