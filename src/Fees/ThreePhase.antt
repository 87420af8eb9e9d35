-- ===== src/Fees/ThreePhase.antt =====
-- `ThreePhaseCommitHandler` of sovtokenfees/sovtokenfees/three_phase_commit_handling.py: the fees in
-- the plugin fields of the consensus messages. The messages and roots are plenum's: a message is
-- what the handler reads of it, and roots come in as texts and in the form of the replica.
pub mod Agrees
use token_plugin.Prelude.{
  ℕ, ◌≡◌, Bool, true, false, Option, none, some, List, [], ◌==◌, ◌&&◌, ◌||◌, ltb, not,
  if◌then◌else◌, get_or, is_some,
}
use token_plugin.Text.{Text, text_eq}
use token_plugin.Errors.{Exn, Result, ok, err, ◌>>◌, raise_if}

abbrev pub token_ledger_id : ℕ
token_ledger_id = 1001

-- The dict under "fees"; `none` is a missing key.
pub record FeesData : Type 0 where
  pub fee_txns_in_batch : Option ℕ
  pub state_root : Option Text
  pub txn_root : Option Text

-- A message: its ledger, and its plugin fields if it has the attribute; of these the fees.
pub record Message : Type 0 where
  pub ledger_id : ℕ
  pub plugin_fields : Option (Option FeesData)

-- What the handler reads of its replica, and the two conversions of roots.
pub record Replica : Type 0 where
  pub fees_in_current_batch : ℕ
  pub get_state_root_hash : Text
  pub get_txn_root_hash : Text
  pub head_hash : Text
  pub uncommitted_root_hash : Text
  pub deserialize_root : Text → Text
  pub str_to_hash : Text → Text

-- An empty dict is false.
unfoldable pub nonempty : FeesData → Bool
nonempty d = is_some d.fee_txns_in_batch || is_some d.state_root || is_some d.txn_root

unfoldable pub has_plugin_fields : Message → Bool
has_plugin_fields m = elim m.plugin_fields [ some p ↦ true | none ↦ false ]

-- `plugin_fields.get(FEES)`, where an empty dict is as good as none.
unfoldable pub fees_data : Message → Option FeesData
unfolding nonempty
fees_data m = elim m.plugin_fields [
  | none ↦ none
  | some p ↦ elim p [ none ↦ none | some d ↦ if nonempty d then some d else none ]
]

unfoldable pub add_to_pre_prepare : Replica → Message → Message
add_to_pre_prepare r pp =
    if not (pp.ledger_id == token_ledger_id) && ltb 0 r.fees_in_current_batch
    then record pp {
      plugin_fields = some (
          some (record {
            fee_txns_in_batch = some r.fees_in_current_batch;
            state_root = some r.get_state_root_hash;
            txn_root = some r.get_txn_root_hash;
          }));
    }
    else pp

-- `add_to_prepare` and `add_to_ordered` copy the fees of the PRE-PREPARE in the same way.
unfoldable pub copy_fees : Message → Message → Message
unfolding fees_data has_plugin_fields
copy_fees m pp =
    if not (pp.ledger_id == token_ledger_id) && has_plugin_fields pp
    then (elim (fees_data pp) [
      | none ↦ m
      | some d ↦ record m {
        plugin_fields = some (
            some (record {
              fee_txns_in_batch = d.fee_txns_in_batch;
              state_root = d.state_root;
              txn_root = d.txn_root;
            }));
      }
    ])
    else m

abbrev pub add_to_prepare : Message → Message → Message
add_to_prepare prepare pre_prepare = copy_fees prepare pre_prepare

abbrev pub add_to_ordered : Message → Message → Message
add_to_ordered ordered pre_prepare = copy_fees ordered pre_prepare

unfoldable pub same_count : Option ℕ → ℕ → Bool
same_count none n = false
same_count (some m) n = m == n

unfoldable pub check_fees : Replica → FeesData → Result (Unit {0})
unfolding same_count
check_fees r d = do
  raise_if (not (same_count d.fee_txns_in_batch r.fees_in_current_batch)) Exn.plain_exception
  raise_if (not (text_eq (r.deserialize_root (get_or [] d.state_root)) r.head_hash))
      Exn.plain_exception
  raise_if (not (text_eq (r.str_to_hash (get_or [] d.txn_root)) r.uncommitted_root_hash))
      Exn.plain_exception

unfoldable pub check_recvd_pre_prepare : Replica → Message → Result (Unit {0})
unfolding fees_data check_fees
check_recvd_pre_prepare r pp =
    if not (pp.ledger_id == token_ledger_id) && ltb 0 r.fees_in_current_batch
    then (elim (fees_data pp) [ none ↦ err Exn.plain_exception | some d ↦ check_fees r d ])
    else ok tt
