-- ===== src/Batch/Laws/Marks.antt =====
-- Lists of marks: what is chained grows, and the oldest mark can be taken off.
use mathlib.Core.Path.{subst}
use token_plugin.Prelude.{
  sym, ap₂, append_assoc, append-nil, ◌∙◌, ℕ, ◌≤◌, ◌≡◌, refl, ap, List, [], ◌∷◌, ◌++◌, arith, All,
}
use token_plugin.Batch.{Mark}
use token_plugin.Batch.Laws.{Pending, marks_of, newest, own_root, cache_roots, Follows, Chained}

pub Chained-base_le : (b : Mark) (r : List Pending) → Chained b r → b.size ≤ (newest b r).size
Chained-base_le b [] h = omega arith
Chained-base_le b (x ∷ r) h = omega (arith, (h.0).grows, Chained-base_le b r h.1)

All-size_le : (n k : ℕ) (r : List Mark) → n ≤ k → All (λ m. m.size ≤ n) r → All (λ m. m.size ≤ k) r
All-size_le n k [] h a = tt
All-size_le n k (m ∷ r) h a = (omega (arith, h, a.0), All-size_le n k r h a.1)

pub Chained-size_le :
    (b : Mark) (r : List Pending) → Chained b r → All (λ m. m.size ≤ (newest b r).size) (marks_of r)
Chained-size_le b [] h = tt
Chained-size_le b (x ∷ r) h = (
  omega arith,
  All-size_le (newest b r).size x.mark.size (marks_of r) (h.0).grows (Chained-size_le b r h.1),
)

-- Nothing new: the mark follows itself.
pub Follows-refl : (m : Mark) → Follows m m
Follows-refl m = record {
  grows = omega arith;
  stays = λ e. refl;
  state_moves = λ h. absurd (omega (arith, h));
  root_moves = λ h. absurd (omega (arith, h));
}

pub marks_of-append :
    (r : List Pending) (x : Pending) → marks_of (r ++ x ∷ []) ≡ marks_of r ++ x.mark ∷ []
marks_of-append [] x = refl
marks_of-append (y ∷ r) x = ap (λ l. y.mark ∷ l) (marks_of-append r x)

pub newest-append :
    (b : Mark) (x : Pending) (r : List Pending) → newest b (r ++ x ∷ []) ≡ newest x.mark r
newest-append b x [] = refl
newest-append b x (y ∷ r) = refl

pub Chained-append :
    (b : Mark) (x : Pending) (r : List Pending)
    → Chained b (r ++ x ∷ [])
    → Follows b x.mark × Chained x.mark r
Chained-append b x [] h = (h.0, tt)
Chained-append b x (y ∷ r) h =
    let (first, rest) = Chained-append b x r h.1 in
    (first, (subst (λ t. Follows t y.mark) (newest-append b x r) h.0, rest))

pub cache_roots-append :
    (b : Mark) (x : Pending) (r : List Pending)
    → cache_roots b (r ++ x ∷ []) ≡ cache_roots x.mark r ++ own_root b x
cache_roots-append b x [] = append-nil (own_root b x)
cache_roots-append b x (y ∷ r) =
    ap₂ (λ t l. own_root t y ++ l) (newest-append b x r) (cache_roots-append b x r)
    ∙ sym (append_assoc (own_root (newest x.mark r) y) (cache_roots x.mark r) (own_root b x))

pub All-last {κ} :
    (P : Mark → Type κ) (m : Mark) (r : List Mark) → All P (r ++ m ∷ []) → P m × All P r
All-last P m [] h = h
All-last P m (x ∷ r) h = let (last, rest) = All-last P m r h.1 in (last, (h.0, rest))
