-- ===== src/Tests/Samples.antt =====
-- Concrete stores and data for the tests.
use token_plugin.Prelude.{
  ◌≡◌, refl, Bool, true, false, Option, none, some, List, [], ◌∷◌, if◌then◌else◌,
}
use token_plugin.Text.{Text, text_eq}
use token_plugin.Storage.{KvStore, TrieState}
use token_plugin.Amounts.Pairs.{Utxos}
use token_plugin.Cache.{Input}
use token_plugin.Cache.Refines.{Holds, written}
use token_plugin.Ledger.{Ledger}
use token_plugin.Token.{Payment, World}

abbrev pub Dict : Type 0
Dict = Text → Option Text

abbrev pub put : Dict → Text → Text → Dict
put d k v j = if text_eq k j then some v else d j

-- The committed and the uncommitted values.
abbrev pub kv_get : Dict × Dict → Text → Bool → Option Text
kv_get c k true = c.0 k
kv_get c k false = c.1 k

abbrev pub kv_set : Dict × Dict → Text → Text → Bool → Dict × Dict
kv_set c k v true = (put c.0 k v, c.1)
kv_set c k v false = (c.0, put c.1 k v)

pub kv_get-set :
    (c : Dict × Dict) (k j v : Text) (b : Bool)
    → kv_get (kv_set c k v b) j b ≡ (if text_eq k j then some v else kv_get c j b)
kv_get-set c k j v true = refl
kv_get-set c k j v false = refl

abbrev pub kv : KvStore
kv = record { Cache = Dict × Dict; get = kv_get; set = kv_set; get-set = kv_get-set }

abbrev pub ts : TrieState
ts = record {
  State = Dict;
  get = λ d k. d k;
  set = put;
  remove = λ d k j. if text_eq k j then none else d j;
  get-set = λ d k j v. refl;
  get-remove = λ d k j. refl;
}

abbrev pub alice : Text
alice = b'a' ∷ []

abbrev pub bob : Text
bob = b'b' ∷ []

abbrev pub empty : Dict
empty k = none

-- The cache that holds a ledger at both of its levels.
abbrev pub cache_of : Ledger → Dict × Dict
cache_of v = ((λ a. written (v a)), λ a. written (v a))

pub cache_of-Holds : (v : Ledger) (b : Bool) → Holds kv (cache_of v) b v
cache_of-Holds v true = record { at = λ a. refl }
cache_of-Holds v false = record { at = λ a. refl }

abbrev pub two_outputs : Utxos
two_outputs = (1, 10) ∷ (2, 5) ∷ []

abbrev pub ledger : Ledger
ledger a = if text_eq alice a then some two_outputs else none

abbrev pub world : World kv ts
world = record { state = empty; cache = cache_of ledger }

abbrev pub inputs : List Input
inputs = record { address = alice; seq_no = 1 } ∷ record { address = alice; seq_no = 2 } ∷ []

abbrev pub outputs : List Payment
outputs = record { address = bob; amount = 12 } ∷ record { address = alice; amount = 3 } ∷ []
