-- ===== src/Extable.antt =====
-- common/extable.c and the handlers of arch/x86/extable.c. A pointer into the table is an index;
-- `table` has the entries from `__start_ex_table` to `__stop_ex_table`.
pub mod Sorted
pub mod Search
use xtf.Base.{
  ℕ, zero, suc, ◌+◌, ◌-◌, ◌*◌, ◌/◌, ◌%◌, ◌^◌, ◌≡◌, refl, ◌≤◌, Bool, true, false, ◌==◌, ltb, leb,
  if◌then◌else◌, List, Option, some, none, length, get_elem?, arith,
}
use xtf.Base.Int.{ℤ, pos, negsuc}
use xtf.Base.Run.{Run, ok, fault, out_of_fuel, or_fault, ◌>>=◌}
use xtf.Heapsort.{Client, IsLawful, heapsort}

-- `struct cpu_regs`, as far as the handlers and do_exception() use it
pub record CpuRegs : Type 0 where
  pub ax : ℕ
  pub cx : ℕ
  pub dx : ℕ
  pub di : ℕ
  pub ip : ℕ
  pub cs : ℕ
  pub entry_vector : ℕ
  pub error_code : ℕ

-- A custom handler is told apart by its address; 0 is no handler.
pub record Entry : Type 0 where
  pub fault : ℕ
  pub fixup : ℕ
  pub handler : ℕ

unfoldable pub compare_extable_entry : Entry → Entry → ℤ
compare_extable_entry l r =
    if l.fault == r.fault then pos 0 else if ltb r.fault l.fault then pos 1 else negsuc 0

unfoldable pub swap_extable_entry : Entry → Entry → Entry × Entry
swap_extable_entry l r = let tmp = l in let l = r in let r = tmp in (l, r)

-- `sizeof(__start_ex_table[0])` on x86_64
abbrev pub extable_client : Client Entry
extable_client = record { size = 24; compar = compare_extable_entry; swap = swap_extable_entry }

unfoldable pub sort_extable : List Entry → Run (List Entry)
sort_extable table = heapsort extable_client table (length table)

-- The loop of search_extable() on fuel; `stop` is its `stop + 1`, since it may come to stand before
-- the table. An entry that is read past the end of the table is a fault, found at once or not.
unfoldable pub search_loop : ℕ → List Entry → ℕ → ℕ → ℕ → Run (Option ℕ)
search_loop zero table addr start stop = out_of_fuel
search_loop (suc fuel) table addr start stop =
    let mid = start + (stop - 1 - start) / 2 in
    let above = search_loop fuel table addr (mid + 1) stop in
    let below = search_loop fuel table addr start mid in
    let round : Run (Option ℕ) = do
      e ← or_fault (get_elem? table mid)
      if addr == e.fault then ok (some mid) else if ltb e.fault addr then above else below
    in if ltb start stop then round else ok none

-- The index of the entry that is found; the loop starts with `stop` one entry past the last.
unfoldable pub search_extable : List Entry → ℕ → Run (Option ℕ)
search_extable table addr = search_loop (length table + 2) table addr 0 (length table + 1)
