-- ===== src/Tests/Sort.antt =====
-- common/heapsort.c and common/extable.c at concrete inputs.
use mathlib.Core.List.{Perm}
use xtf.Base.{ℕ, zero, suc, ◌+◌, List, [], ◌∷◌, arith}
use xtf.Base.Run.{Returns}
use xtf.Heapsort.{heapsort}
use xtf.Heapsort.Index.{rank_of}
use xtf.Heapsort.Order.{SiftInv}
use xtf.Heapsort.Sort.{IsSorted, Rearranged, heapsort_lem}
use xtf.Extable.{Entry, extable_client, sort_extable, search_extable}
use xtf.Extable.Sorted.{fault_of, extable_client-IsLawful, sort_extable_lem}
use xtf.Extable.Search.{Searched, search_extable_lem}

abbrev pub entry : ℕ → Entry
entry a = record { fault = a; fixup = a + 100; handler = 0 }

abbrev table : List Entry
table = entry 30 ∷ entry 10 ∷ entry 20 ∷ []

abbrev pub sorted : List Entry
sorted = entry 10 ∷ entry 30 ∷ []

pub sorted-IsSorted : IsSorted fault_of sorted
unfolding rank_of
sorted-IsSorted zero zero h k = omega arith
sorted-IsSorted zero (suc zero) h k = omega arith
sorted-IsSorted (suc zero) (suc zero) h k = omega arith
sorted-IsSorted (suc j) zero h k = absurd (omega arith)
sorted-IsSorted (suc (suc j)) (suc zero) h k = absurd (omega arith)
sorted-IsSorted j (suc (suc k)) h l = absurd (omega arith)

sorted-SiftInv : SiftInv fault_of 0 2 sorted 0
sorted-SiftInv = record {
  edges = λ c p q r t. absurd (t (omega arith));
  bridged = λ c p q r s. absurd (omega arith);
}

search_extable_lem_example : Searched sorted 30 (search_extable sorted 30)
search_extable_lem_example = search_extable_lem sorted 30 sorted-IsSorted

heapsort_lem_example :
    Returns (Rearranged (IsSorted fault_of) table) (heapsort extable_client table 3)
heapsort_lem_example = heapsort_lem extable_client fault_of extable_client-IsLawful table

sort_extable_lem_example :
    Returns (λ sorted. IsSorted fault_of sorted × Perm sorted table) (sort_extable table)
sort_extable_lem_example = sort_extable_lem table
