-- ===== src/Fees/ThreePhase/Agrees.antt =====
-- Replicas that applied the same batch agree on its fees.
use mathlib.Core.Path.{subst}
use token_plugin.Prelude.{
  Option-cases, Bool-cases, inl, inr, ℕ, ◌<◌, ◌≡◌, ◌≢◌, refl, ap, sym, ◌∙◌, ◌↔◌, true, false, some,
  [], arith, ◌==◌, ◌&&◌, ltb, not, get_or,
}
use token_plugin.Text.{text_eq_iff}
use token_plugin.Errors.{ok}
use token_plugin.Fees.ThreePhase.{
  token_ledger_id, FeesData, Message, Replica, fees_data, add_to_pre_prepare, check_fees,
  check_recvd_pre_prepare,
}

-- The fees of a message are those of the replica: their number and both roots.
pub record AgreesWith (r : Replica) (d : FeesData) : Type 0 where
  pub count : d.fee_txns_in_batch ≡ some r.fees_in_current_batch
  pub state : r.deserialize_root (get_or [] d.state_root) ≡ r.head_hash
  pub txns : r.str_to_hash (get_or [] d.txn_root) ≡ r.uncommitted_root_hash

pub check_fees_iff : (r : Replica) (d : FeesData) → (check_fees r d ≡ ok tt) ↔ AgreesWith r d
unfolding check_fees
check_fees_iff r d = (
  λ h. record {
    count = ground (arith, h);
    state = (text_eq_iff _ _).0 (ground (arith, h));
    txns = (text_eq_iff _ _).0 (ground (arith, h));
  },
  λ a.
      let s = (text_eq_iff _ _).1 a.state in
      let t = (text_eq_iff _ _).1 a.txns in ground (arith, a.count, s, t),
)

charges : (n m : ℕ) → n ≢ token_ledger_id → 0 < m → (not (n == token_ledger_id) && ltb 0 m) ≡ true
charges n m other fees = ground (arith, other, fees)

-- On another ledger than the token ledger, with fees in the replica's batch, a PRE-PREPARE is
-- accepted exactly if it has fees that agree with the replica in number and in both roots.
pub check_recvd_pre_prepare_iff :
    (r : Replica) (pp : Message)
    → pp.ledger_id ≢ token_ledger_id
    → 0 < r.fees_in_current_batch
    → (check_recvd_pre_prepare r pp ≡ ok tt)
      ↔ ((d : FeesData) × (fees_data pp ≡ some d) × AgreesWith r d)
unfolding check_recvd_pre_prepare
check_recvd_pre_prepare_iff r pp other fees =
    let t = charges pp.ledger_id r.fees_in_current_batch other fees in
    elim (Option-cases (fees_data pp)) [
      | inl missing ↦ rw (t, missing) (λ h. cc, λ p. cc)
      | inr (d, found) ↦
          rw (t, found)
            (
              λ h. (d, refl, (check_fees_iff r d).0 h),
              λ (d', same, a).
                  (check_fees_iff r d).1 (subst (AgreesWith r) (some_inj (sym same)) a),
            )
    ]
  where
    some_inj : {d d' : FeesData} → some d ≡ some d' → d ≡ d'
    some_inj e = cc e

-- What a primary adds passes the check of a replica with as many fees and the same roots, whatever
-- the ledger and the number of fees.
pub check-add_to_pre_prepare :
    (primary r : Replica) (pp : Message)
    → primary.fees_in_current_batch ≡ r.fees_in_current_batch
    → r.deserialize_root primary.get_state_root_hash ≡ r.head_hash
    → r.str_to_hash primary.get_txn_root_hash ≡ r.uncommitted_root_hash
    → check_recvd_pre_prepare r (add_to_pre_prepare primary pp) ≡ ok tt
unfolding check_recvd_pre_prepare add_to_pre_prepare fees_data
check-add_to_pre_prepare primary r pp count state txns =
    elim (Bool-cases
      (not (pp.ledger_id == token_ledger_id) && ltb 0 primary.fees_in_current_batch)) [
        | inl due ↦
            let due' : (not (pp.ledger_id == token_ledger_id) && ltb 0 r.fees_in_current_batch)
                ≡ true =
              ap (λ n. not (pp.ledger_id == token_ledger_id) && ltb 0 n) (sym count) ∙ due in
            let fees : FeesData = record {
              fee_txns_in_batch = some primary.fees_in_current_batch;
              state_root = some primary.get_state_root_hash;
              txn_root = some primary.get_txn_root_hash;
            } in
            rw due (
              rw due' (
                (check_fees_iff r fees).1
                  (record { count = ap some count; state = state; txns = txns })))
        | inr exempt ↦
            let exempt' : (not (pp.ledger_id == token_ledger_id) && ltb 0 r.fees_in_current_batch)
                ≡ false =
              ap (λ n. not (pp.ledger_id == token_ledger_id) && ltb 0 n) (sym count) ∙ exempt in
            rw exempt (rw exempt' refl)
      ]
