-- ===== src/Tests/Versions.antt =====
-- A development version, by a timestamp.
use token_plugin.Prelude.{true, some, List, [], ◌∷◌, ◌++◌}
use token_plugin.Text.{Text}
use token_plugin.Version.{
  Semver, timestamp, Files, version_key, update_version, Outcome, update_version_lem,
}

-- The prerelease follows a dash.
abbrev versions : Semver
versions = record {
  Version = Text;
  is_valid = λ s. true;
  parse = λ s. some s;
  with_prerelease = λ v s. v ++ (b'-' ∷ s);
  str = λ v. v;
}

abbrev metadata : List (Text × Text)
metadata = (version_key, b'1' ∷ []) ∷ (b'a' ∷ [], b'S' ∷ []) ∷ []

abbrev files : Files
files = record { sovtoken = some metadata; sovtokenfees = some metadata }

update_version_lem_example :
    Outcome versions
      (timestamp (b'9' ∷ []))
      files
      (update_version versions (timestamp (b'9' ∷ [])) files)
update_version_lem_example = update_version_lem versions (timestamp (b'9' ∷ [])) files
