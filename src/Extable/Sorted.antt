-- ===== src/Extable/Sorted.antt =====
-- sort_extable() of common/extable.c.
use mathlib.Core.List.{Perm}
use xtf.Base.{ℕ, ◌≡◌, refl, ltb, List, arith}
use xtf.Base.Int.{pos, ltb_ℤ}
use xtf.Base.Run.{Returns}
use xtf.Heapsort.{IsLawful}
use xtf.Heapsort.Sort.{IsSorted, heapsort_lem}
use xtf.Extable.{Entry, compare_extable_entry, swap_extable_entry, extable_client, sort_extable}

abbrev pub fault_of : Entry → ℕ
fault_of e = e.fault

compare_extable_entry_lem :
    (x y : Entry) → ltb_ℤ (compare_extable_entry x y) (pos 0) ≡ ltb (fault_of x) (fault_of y)
unfolding compare_extable_entry
compare_extable_entry_lem x y = ground arith

-- The functions that sort_extable() passes to heapsort() are what that asks for.
pub extable_client-IsLawful : IsLawful extable_client fault_of
unfolding swap_extable_entry
extable_client-IsLawful = record {
  some_bytes = omega arith;
  compares = compare_extable_entry_lem;
  swaps = λ x y. refl;
}

-- sort_extable() ends without an access outside the table and leaves the same entries in it, in the
-- order of their fault addresses.
pub sort_extable_lem :
    (table : List Entry)
    → Returns (λ sorted. IsSorted fault_of sorted × Perm sorted table) (sort_extable table)
unfolding sort_extable
sort_extable_lem table = heapsort_lem extable_client fault_of extable_client-IsLawful table
