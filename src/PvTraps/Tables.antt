-- ===== src/PvTraps/Tables.antt =====
-- What the page tables of a PV guest are behind arch_init_traps().
use xtf.Base.{ℕ, ◌≡◌, ◌≢◌, List, Option, some}
use xtf.PvTraps.{Xen, expect_zero}

-- Xen keeps a table of entries by linear address. update_va_mapping() writes one entry if it succeeds, and the
-- other calls, and loads of registers, leave the table alone.
pub record KeepsTable {W : Type 0} (xen : Xen W) (entry_at : W → ℕ → ℕ) : Type 0 where
  pub updates :
      (linear npte flags : ℕ) (w w' : W)
      → expect_zero (xen.update_va_mapping linear npte flags w) ≡ some w'
      → (entry_at w' linear ≡ npte)
        × ((other : ℕ) → other ≢ linear → entry_at w' other ≡ entry_at w other)
  pub keeps_gdt :
      (frames : List ℕ) (n : ℕ) (w : W) (at : ℕ)
      → entry_at (xen.set_gdt frames n w).1 at ≡ entry_at w at
  pub keeps_stack :
      (ss sp : ℕ) (w : W) (at : ℕ) → entry_at (xen.stack_switch ss sp w).1 at ≡ entry_at w at
  pub keeps_user :
      (mfn : ℕ) (w : W) (at : ℕ) → entry_at (xen.new_user_baseptr mfn w).1 at ≡ entry_at w at
  pub keeps_segments :
      (sel : ℕ) (w : W) (at : ℕ) → entry_at (xen.write_segments sel w) at ≡ entry_at w at
