-- ===== src/Version.antt =====
-- The script updateVersion.py, which sets the version of both plugins. Semantic versions are the
-- semver package's, a parameter. Of the arguments argparse lets just one through, so the help at the
-- end of the script is not reached. A metadata file is a JSON object of texts,
-- or cannot be read.
use token_plugin.Prelude.{
  ◌≡◌, refl, ap, sym, ◌∙◌, Bool, true, false, Option, none, some, List, [], ◌∷◌, ◌++◌,
  if◌then◌else◌, Bool-cases, inl, inr, ◌↔◌, ◌⊎◌,
}
use token_plugin.Text.{Text, text_eq, text_eq_refl}
use token_plugin.Errors.{Exn, Result, ok, err, ◌>>=◌, >>=-eq-ok, or_raise}
use token_plugin.Errors.Exec.{Exec}
use token_plugin.Text.Dict.{get, assign, get-assign}

-- `Version.is_valid`, `Version.parse`, `replace(prerelease=…)` and `str`; what cannot be parsed is a
-- `ValueError`.
pub record Semver : Type 1 where
  pub Version : Type 0
  pub is_valid : Text → Bool
  pub parse : Text → Option Version
  pub with_prerelease : Version → Text → Version
  pub str : Version → Text

pub data Args : Type 0 where
  tag timestamp : Text → Args
  get_version : Args

-- What a metadata.json has; `none` is a file that cannot be opened or is no JSON object.
abbrev pub File : Type 0
File = Option (List (Text × Text))

pub record Files : Type 0 where
  pub sovtoken : File
  pub sovtokenfees : File

-- "version" and "dev"
abbrev pub version_key : Text
version_key = b'v' ∷ b'e' ∷ b'r' ∷ b's' ∷ b'i' ∷ b'o' ∷ b'n' ∷ []

abbrev pub dev : Text
dev = b'd' ∷ b'e' ∷ b'v' ∷ []

module _ (sv : Semver) where
  unfoldable pub current_version : Files → Result sv.Version
  unfolding get
  current_version f = do
    fields ← or_raise f.sovtoken Exn.plain_exception
    v ← or_raise (get version_key fields) Exn.key_error
    or_raise (sv.parse v) Exn.value_error

  unfoldable pub update_with_tag : Text → Result Text
  update_with_tag ver = if sv.is_valid ver then ok ver else err Exn.value_error

  unfoldable pub update_with_timestamp : Text → Files → Result Text
  unfolding current_version
  update_with_timestamp time f = do
    v ← current_version f
    ok (sv.str (sv.with_prerelease v (dev ++ time)))

  -- The version is written to the file of sovtoken, and then to that of sovtokenfees: when the second
  -- cannot be read the first is written already.
  unfoldable pub write_version : Text → Exec Files (Unit {0})
  unfolding assign
  write_version version f = elim f.sovtoken [
    | none ↦ (err Exn.plain_exception, f)
    | some fields ↦
        let f' = record f { sovtoken = some (assign version_key version fields) } in
        elim f.sovtokenfees [
          | none ↦ (err Exn.plain_exception, f')
          | some fees_fields ↦
              (ok tt, record f' { sovtokenfees = some (assign version_key version fees_fields) })
        ]
  ]

  unfoldable pub printed_none : Result (Unit {0}) × Files → Result (Option sv.Version) × Files
  printed_none (ok u, f) = (ok none, f)
  printed_none (err e, f) = (err e, f)

  unfoldable pub write_result : Result Text → Exec Files (Option sv.Version)
  unfolding write_version printed_none
  write_result (ok version) f = printed_none (write_version version f)
  write_result (err e) f = (err e, f)

  -- What is printed of a version, and the files.
  unfoldable pub update_version : Args → Exec Files (Option sv.Version)
  unfolding write_result update_with_tag update_with_timestamp current_version
  update_version get_version f = ((do v ← current_version f; ok (some v)), f)
  update_version (tag ver) f = write_result (update_with_tag ver) f
  update_version (timestamp t) f = write_result (update_with_timestamp t f) f

module _ (sv : Semver) where
  -- What the version is to be.
  abbrev pub IsNew : Args → Files → Text → Type 0
  IsNew get_version f s = ⊥
  IsNew (tag t) f s = (s ≡ t) × (sv.is_valid t ≡ true)
  IsNew (timestamp t) f s =
      (fields : List (Text × Text)) × (old : Text) × (v : sv.Version) × (f.sovtoken ≡ some fields)
      × (get version_key fields ≡ some old)
      × (sv.parse old ≡ some v)
      × (s ≡ sv.str (sv.with_prerelease v (dev ++ t)))

  -- Both can be read, and they differ in the version alone.
  abbrev pub IsWritten : File → File → Text → Type 0
  IsWritten file file' s =
      (d d' : List (Text × Text)) × (file ≡ some d)
      × (file' ≡ some d')
      × (get version_key d' ≡ some s)
      × ((j : Text) → text_eq version_key j ≡ false → get j d' ≡ get j d)

  -- What an exception leaves: both files as they were, when there is no new version or that of
  -- sovtoken cannot be read; or only that of sovtoken written, when the other cannot be read.
  abbrev pub Failure : Args → Files → Files → Type 0
  Failure a f f' =
      ((f' ≡ f) × ((s : Text) → IsNew a f s → f.sovtoken ≡ none))
      ⊎ ((s : Text) × IsNew a f s
          × IsWritten f.sovtoken f'.sovtoken s
          × (f.sovtokenfees ≡ none)
          × (f'.sovtokenfees ≡ none))

  abbrev pub Outcome : Args → Files → Result (Option sv.Version) × Files → Type 0
  Outcome a f (err e, f') = Failure a f f'
  Outcome a f (ok (some v), f') = (a ≡ get_version) × (current_version sv f ≡ ok v) × (f' ≡ f)
  Outcome a f (ok none, f') =
      (s : Text) × IsNew a f s
      × IsWritten f.sovtoken f'.sovtoken s
      × IsWritten f.sovtokenfees f'.sovtokenfees s

  assign-IsWritten :
      (s : Text) (d : List (Text × Text)) → IsWritten (some d) (some (assign version_key s d)) s
  assign-IsWritten s d = (
    d,
    assign version_key s d,
    refl,
    refl,
    get-assign version_key version_key s d ∙ rw (text_eq_refl version_key) refl,
    λ j other. get-assign version_key j s d ∙ rw other refl,
  )

  -- A new version from the arguments is the one that is written.
  new_written :
      (a : Args) (f : Files) (s : Text) → IsNew a f s → Outcome a f (write_result sv (ok s) f)
  unfolding write_result write_version printed_none
  new_written a f s = go f.sovtoken f.sovtokenfees
    where
      go :
          (x y : File)
          → let f : Files = record { sovtoken = x; sovtokenfees = y } in
            IsNew a f s → Outcome a f (write_result sv (ok s) f)
      go none y new = inl (refl, λ t n. refl)
      go (some d) none new = inr (s, new, assign-IsWritten s d, refl, refl)
      go (some d) (some d') new = (s, new, assign-IsWritten s d, assign-IsWritten s d')

  written :
      (a : Args) (f : Files) (r : Result Text)
      → ((s : Text) → r ≡ ok s → IsNew a f s)
      → ((s : Text) → IsNew a f s → r ≡ ok s)
      → Outcome a f (write_result sv r f)
  unfolding write_result
  written a f (ok s) h back = new_written a f s (h s refl)
  written a f (err e) h back = inl (refl, λ s new. cc (back s new))

  tagged : (t : Text) (f : Files) (s : Text) → (update_with_tag sv t ≡ ok s) ↔ IsNew (tag t) f s
  unfolding update_with_tag
  tagged t f s = elim (Bool-cases (sv.is_valid t)) [
    | inl valid ↦ rw valid (λ e. (cc e, refl), λ h. ap ok (sym h.0))
    | inr invalid ↦ rw invalid (λ e. cc e, λ h. cc (h.1))
  ]

  timed :
      (t : Text) (f : Files) (s : Text)
      → (update_with_timestamp sv t f ≡ ok s) ↔ IsNew (timestamp t) f s
  unfolding update_with_timestamp current_version
  timed t f s = (
    λ e.
        let (v, known, last) = >>=-eq-ok (current_version sv f) _ e in
        let (fields, read, known) = >>=-eq-ok (or_raise f.sovtoken Exn.plain_exception) _ known in
        let (old, there, parsed) =
          >>=-eq-ok (or_raise (get version_key fields) Exn.key_error) _ known in
        (fields, old, v, raised _ _ read, raised _ _ there, raised _ _ parsed, cc last),
    λ (fields, old, v, read, there, parsed, e). rw (read, there, parsed) (ap ok (sym e)),
  )
    where
      raised : {A : Type 0} {x : A} (o : Option A) (e : Exn) → or_raise o e ≡ ok x → o ≡ some x
      raised none e h = cc h
      raised (some y) e h = cc h

  -- With --getVersion the script gives the version of sovtoken and writes nothing. Else, when it
  -- returns, both files have the same new version, which is the tag, and then valid, or the version
  -- of sovtoken with the timestamp after 'dev' as its prerelease, and all other fields of both are
  -- as they were. When it fails both files are as they were, since there is no such version or that
  -- of sovtoken cannot be read; or that of sovtokenfees cannot be read, and only that of sovtoken
  -- has the new version.
  pub update_version_lem : (a : Args) (f : Files) → Outcome a f (update_version sv a f)
  unfolding update_version
  update_version_lem get_version f = printed (current_version sv f) refl
    where
      printed :
          (r : Result sv.Version)
          → current_version sv f ≡ r
          → Outcome get_version f ((r >>= λ v. ok (some v)), f)
      printed (ok v) e = (refl, e, refl)
      printed (err x) e = inl (refl, λ s new. absurd new)
  update_version_lem (tag t) f =
      written (tag t) f (update_with_tag sv t) (λ s. (tagged t f s).0) (λ s. (tagged t f s).1)
  update_version_lem (timestamp t) f =
      written (timestamp t) f (update_with_timestamp sv t f) (λ s. (timed t f s).0)
        (λ s. (timed t f s).1)
