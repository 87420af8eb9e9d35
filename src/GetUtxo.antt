-- ===== src/GetUtxo.antt =====
-- `GetUtxoHandler.get_result` of
-- sovtoken/sovtoken/request_handlers/read_req_handler/get_utxo_handler.py, and `SortedItems` of
-- sovtoken/sovtoken/util.py. The entries of the state with the address's prefix and the decoding of
-- their values come from plenum's state and are parameters; the proof is left out.
pub mod Paging
pub mod Pages
pub mod Reply
pub mod Bounds
pub mod Sorted
pub mod SortedItems
pub mod Drains
pub mod Listing
pub mod Exact
pub mod Total
use token_plugin.Prelude.{
  ℕ, zero, suc, Bool, true, false, Option, none, some, List, [], ◌∷◌, leb, ltb, if◌then◌else◌,
  length, get_elem?, take, drop, is_empty,
}
use token_plugin.Text.{Text}
use token_plugin.Text.Decimal.{int}
use token_plugin.Errors.{Exn, Result, ok, err, ◌>>=◌, or_raise}
use token_plugin.Amounts.{Output, less_than}
use token_plugin.Token.{parse_state_key}

-- `SortedItems.add`: `heappush`, with the heap written in the order in which it is popped.
unfoldable pub add_sorted : Output → List Output → List Output
add_sorted o [] = o ∷ []
add_sorted o (p ∷ r) = if less_than p o then p ∷ add_sorted o r else o ∷ p ∷ r

-- `addr, seq_no = …` wants exactly two parts.
unfoldable pub unpack_two : List Text → Result (Text × Text)
unpack_two (x ∷ y ∷ []) = ok (x, y)
unpack_two _ = err Exn.value_error

-- One round of the loop over the entries of the state; an empty value is a spent output and is
-- passed over.
unfoldable pub add_entry : Text × Text → Text → List Output → Result (List Output)
add_entry parts amount outputs = if is_empty amount then ok outputs else (do
  n ← or_raise (int parts.1) Exn.value_error
  a ← or_raise (int amount) Exn.value_error
  ok (add_sorted (record { address = parts.0; seq_no = n; amount = some a }) outputs))

unfoldable pub collect : (Text → Text) → List (Text × Text) → List Output → Result (List Output)
collect rlp [] outputs = ok outputs
collect rlp ((k, v) ∷ rv) outputs = do
  parts ← unpack_two (parse_state_key k)
  next ← add_entry parts (rlp v) outputs
  collect rlp rv next

-- The first index whose output has at least the number.
unfoldable pub find_from : ℕ → List Output → Option ℕ
find_from n [] = none
find_from n (o ∷ r) =
    if leb n o.seq_no
    then some 0
    else (elim (find_from n r) [ none ↦ none | some i ↦ some (suc i) ])

-- `utxos[idx:] if idx else []`, where both None and 0 are false.
unfoldable pub drop_to : Option ℕ → List Output → List Output
drop_to none utxos = []
drop_to (some zero) utxos = []
drop_to (some (suc i)) utxos = drop (suc i) utxos

-- `if from_seqno:`
unfoldable pub start_at : Option ℕ → List Output → List Output
unfolding find_from drop_to
start_at none utxos = utxos
start_at (some zero) utxos = utxos
start_at (some (suc n)) utxos = drop_to (find_from (suc n) utxos) utxos

pub record Page : Type 0 where
  pub outputs : List Output
  pub next_seqno : Option ℕ

abbrev pub seq_no_at : ℕ → List Output → Option ℕ
seq_no_at i utxos = elim (get_elem? utxos i) [ none ↦ none | some o ↦ some o.seq_no ]

-- At most `limit` outputs, and the number of the first one left out.
unfoldable pub cut : ℕ → List Output → Page
cut limit utxos =
    if ltb limit (length utxos)
    then record { outputs = take limit utxos; next_seqno = seq_no_at limit utxos }
    else record { outputs = utxos; next_seqno = none }

abbrev pub utxo_limit : ℕ
utxo_limit = 1000

unfoldable pub page : ℕ → Option ℕ → List Output → Page
page limit from_seqno utxos = cut limit (start_at from_seqno utxos)

-- The outputs that a request gets: those of the state, sorted, from the number on.
unfoldable pub get_result : (Text → Text) → List (Text × Text) → Option ℕ → Result Page
unfolding collect page
get_result rlp rv from_seqno = do utxos ← collect rlp rv []; ok (page utxo_limit from_seqno utxos)
