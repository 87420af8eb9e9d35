-- ===== src/Tests/Plenum.antt =====
-- A token ledger of numbered transactions, with a tracker and a cache that are lists.
use token_plugin.Prelude.{
  ℕ, zero, suc, ◌+◌, ◌-◌, ◌≡◌, refl, ap, sym, ◌∙◌, Bool, true, false, Option, none, some, List, [],
  ◌∷◌, ◌++◌, length,
}
use token_plugin.Text.{Text, text_eq, text_eq_refl}
use token_plugin.Errors.{Exn, Result, ok, err}
use token_plugin.Batch.{Mark, Tracked, Plenum}
use token_plugin.Batch.Laws.{IsPlenum, top, since}

pub record Counts : Type 0 where
  pub size : ℕ
  pub committed : ℕ

-- The list without its last element, and that element.
abbrev pub unlast_with {ℓ} : {A : Type ℓ} → A → Option (List A × A) → Option (List A × A)
unlast_with x none = some ([], x)
unlast_with x (some (r, m)) = some (x ∷ r, m)

abbrev pub unlast {ℓ} : {A : Type ℓ} → List A → Option (List A × A)
unlast [] = none
unlast (x ∷ xs) = unlast_with x (unlast xs)

pub unlast-append {ℓ} : {A : Type ℓ} (r : List A) (m : A) → unlast (r ++ m ∷ []) ≡ some (r, m)
unlast-append [] m = refl
unlast-append (x ∷ r) m = rw (unlast-append r m) refl

abbrev pub unlast_or {ℓ κ} :
    {A : Type ℓ} {C : Type κ} → (List A → A → C) → Option (List A × A) → Result C
unlast_or f none = err Exn.key_error
unlast_or f (some (r, m)) = ok (f r m)

abbrev pub last_of : Option (List Text × Text) → Option Text
last_of none = none
last_of (some (r, h)) = some h

abbrev pub numbers_from : ℕ → ℕ → List ℕ
numbers_from n zero = []
numbers_from n (suc k) = suc n ∷ numbers_from (suc n) k

abbrev pub take_newest : Mark × List Mark → Result (Tracked × (Mark × List Mark))
take_newest (b, []) = err Exn.key_error
take_newest (b, m ∷ r) = ok (since (top b r) m, (b, r))

abbrev pub taken_oldest : Mark → List Mark → Mark → Tracked × (Mark × List Mark)
taken_oldest b r m = (
  record { state_root = m.state_root; txn_root = m.txn_root; txn_count = m.size - b.size },
  (m, r),
)

abbrev pub pop_batch : List Text → Result (List Text)
pop_batch [] = err Exn.key_error
pop_batch (h ∷ r) = ok r

-- What is committed, if the root is the one that the ledger then has.
abbrev pub commit_checked :
    Bool → Counts → Text × Text → ℕ → Text → Result (List ℕ × Counts × (Text × Text))
commit_checked true l s k h =
    ok (numbers_from l.committed k, record l { committed = l.committed + k }, (s.0, h))
commit_checked false l s k h = err Exn.value_error

abbrev pub counts : Plenum
counts = record {
  TokenState = Text × Text;
  TokenLedger = Counts;
  TokenTracker = Mark × List Mark;
  UtxoCache = List Text;
  Txn = ℕ;
  head_hash = λ s. s.0;
  committed_head_hash = λ s. s.1;
  revert_to_head = λ s h. (h, s.1);
  uncommitted_root_hash = λ l. l.size ∷ [];
  uncommitted_size = λ l. l.size;
  ledger_size = λ l. l.committed;
  discard_txns = λ l k. record l { size = l.size - k };
  new_tracker = λ m. (m, []);
  set_last_committed = λ t m. (m, t.1);
  track = λ t m. (t.0, m ∷ t.1);
  untrack = λ t. take_newest t;
  track_commit = λ t. unlast_or (taken_oldest t.0) (unlast t.1);
  create_batch_from_current = λ c h. h ∷ c;
  reject_batch = pop_batch;
  commit_batch = λ c. unlast_or (λ r h. r) (unlast c);
  first_batch_idr = λ c. last_of (unlast c);
  commit_txns = λ l s k h r. commit_checked (text_eq ((l.committed + k) ∷ []) r) l s k h;
  b58decode = λ s. some s;
}

pub length-numbers_from : (n k : ℕ) → length (numbers_from n k) ≡ k
length-numbers_from n zero = refl
length-numbers_from n (suc k) = ap suc (length-numbers_from (suc n) k)

abbrev pub counts_laws : IsPlenum counts
counts_laws = record {
  marks = λ t. t;
  batches = λ c. c;
  history = λ l j. j ∷ [];
  committed_size = λ l. l.committed;
  oldest = λ l k. numbers_from l.committed k;
  head-revert = λ s h. refl;
  root-history = λ l. refl;
  size-discard = λ l k. refl;
  history-discard = λ l k j h. refl;
  committed-discard = λ l k. refl;
  size-ledger = λ l. refl;
  marks-new = λ m. refl;
  marks-set = λ t b m e. ap (λ (x : Mark × List Mark). (m, x.1)) e;
  marks-track = λ t b m r e. ap (λ (x : Mark × List Mark). (x.0, m ∷ x.1)) e;
  untracked = λ t b m r e. ((b, r), ap take_newest e, refl);
  track_committed = λ t b m r e. (
    (m, r),
    ap (λ (x : Mark × List Mark). unlast_or (taken_oldest x.0) (unlast x.1)) e
        ∙ ap (λ x. unlast_or (taken_oldest b) x) (unlast-append r m),
    refl,
  );
  batches-create = λ c h. refl;
  batch_rejected = λ c h r e. (r, ap pop_batch e, refl);
  batch_committed = λ c h r e. (
    r,
    ap (λ x. last_of (unlast x)) e ∙ ap last_of (unlast-append r h),
    ap (λ x. unlast_or (λ r h. r) (unlast x)) e
        ∙ ap (λ x. unlast_or (λ r h. r) x) (unlast-append r h),
    refl,
  );
  txns_committed = λ l s k h r le root. (
    record l { committed = l.committed + k },
    (s.0, h),
    ap (λ b. commit_checked b l s k h)
        (ap (text_eq ((l.committed + k) ∷ [])) (sym root) ∙ text_eq_refl ((l.committed + k) ∷ [])),
    length-numbers_from l.committed k,
    refl,
    refl,
    λ j. refl,
    refl,
    refl,
  );
}
