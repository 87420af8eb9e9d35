-- ===== src/Storage.antt =====
-- The stores that the plugin is given by plenum and indy: `OptimisticKVStore` (under `UTXOCache`)
-- and `PruningState`. They are not part of the repository, so they are interfaces: the operations
-- that the plugin calls, and what their documentation says of reads after writes.
use token_plugin.Prelude.{◌≡◌, Bool, Option, none, some, if◌then◌else◌}
use token_plugin.Text.{Text, text_eq}

-- `storage.optimistic_kv_store.OptimisticKVStore`; the flag is `is_committed`, and `none` is a
-- `KeyError`.
pub record KvStore : Type 1 where
  pub Cache : Type 0
  pub get : Cache → Text → Bool → Option Text
  pub set : Cache → Text → Text → Bool → Cache
  pub get-set :
      (c : Cache) (k j v : Text) (b : Bool)
      → get (set c k v b) j b ≡ (if text_eq k j then some v else get c j b)

-- `state.pruning_state.PruningState`, read at its uncommitted head.
pub record TrieState : Type 1 where
  pub State : Type 0
  pub get : State → Text → Option Text
  pub set : State → Text → Text → State
  pub remove : State → Text → State
  pub get-set :
      (s : State) (k j v : Text) → get (set s k v) j ≡ (if text_eq k j then some v else get s j)
  pub get-remove :
      (s : State) (k j : Text) → get (remove s k) j ≡ (if text_eq k j then none else get s j)
