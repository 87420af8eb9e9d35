-- ===== src/Tests/Heaps.antt =====
-- A heap that is a list, sorted when it is popped.
use mathlib.Core.List.{Permᴰ}
use mathlib.Core.List.Permᴰ as PermD
use token_plugin.Prelude.{◌≡◌, refl, Option, none, some, List, [], ◌∷◌, arith}
use token_plugin.Errors.{ok}
use token_plugin.Amounts.{Output}
use token_plugin.GetUtxo.{add_sorted}
use token_plugin.GetUtxo.Sorted.{IsSorted, add_sorted-IsSorted}
use token_plugin.GetUtxo.SortedItems.{Heapq, push_each, sorted_list}
use token_plugin.GetUtxo.Drains.{
  Popped, IsHeapq, sort, add_sorted-perm, perm_of_sort, All-sort, sorted_list_ends,
}
use token_plugin.Tests.Requests.{entries, collected, collect_runs}

abbrev uncons : List Output → Option (Output × List Output)
uncons [] = none
uncons (o ∷ r) = some (o, r)

abbrev listed : Heapq
listed = record {
  Heap = List Output;
  new = [];
  heappush = λ s o. o ∷ s;
  heappop = λ s. uncons (sort s);
}

sort-IsSorted : (s : List Output) → IsSorted (sort s)
sort-IsSorted [] = tt
sort-IsSorted (o ∷ s) = add_sorted-IsSorted o (sort s) (sort-IsSorted s)

Popped-uncons : (l : List Output) → IsSorted l → Popped sort l (uncons l)
Popped-uncons [] h = refl
Popped-uncons (o ∷ r) h =
    (Permᴰ.cons refl (PermD.symm (perm_of_sort r refl)), All-sort o.seq_no r h.0)

listed-IsHeapq : IsHeapq listed
unfolding add_sorted
listed-IsHeapq = record {
  items = sort;
  items-new = refl;
  items-push = λ s o. add_sorted-perm o (sort s);
  popped = λ s. Popped-uncons (sort s) (sort-IsSorted s);
}

sorted_list_ends_example :
    (t : List Output) × (push_each listed (λ s. s) entries [] ≡ ok t)
    × (sorted_list listed 3 t ≡ some collected)
sorted_list_ends_example =
    sorted_list_ends listed listed-IsHeapq (λ s. s) entries collected collect_runs
      (((λ e. omega (arith, e)), tt), (tt, tt))
