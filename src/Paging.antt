-- ===== src/Paging.antt =====
-- arch/x86/include/arch/page-pae.h, page-pse.h, page.h, pagetable.h and mm.h: indices of page tables, page
-- table entries and the conversions of addresses. The bits that a mask selects are written by division
-- and remainder; an OR of bits that are disjoint is a sum.
pub mod Walk
pub mod Entries
use xtf.Base.{ℕ, ◌+◌, ◌-◌, ◌*◌, ◌/◌, ◌%◌, ◌^◌}

unfoldable pub pae_l1_table_offset : (linear : ℕ) → ℕ
pae_l1_table_offset linear = linear / 2 ^ 12 % 512

unfoldable pub pae_l2_table_offset : (linear : ℕ) → ℕ
pae_l2_table_offset linear = linear / 2 ^ 21 % 512

unfoldable pub pae_l3_table_offset : (linear : ℕ) → ℕ
pae_l3_table_offset linear = linear / 2 ^ 30 % 512

unfoldable pub pae_l4_table_offset : (linear : ℕ) → ℕ
pae_l4_table_offset linear = linear / 2 ^ 39 % 512

unfoldable pub pse_l1_table_offset : (linear : ℕ) → ℕ
pse_l1_table_offset linear = linear / 2 ^ 12 % 1024

unfoldable pub pse_l2_table_offset : (linear : ℕ) → ℕ
pse_l2_table_offset linear = linear / 2 ^ 22 % 1024

-- `val & ~(0x1ffULL << 13)`
abbrev pub without_pse36 : ℕ → ℕ
without_pse36 val = val % 2 ^ 13 + val / 2 ^ 22 * 2 ^ 22

-- The result is an uint32_t.
unfoldable pub fold_pse36 : (val : ℕ) → ℕ
fold_pse36 val = (without_pse36 val + val / 2 ^ 32 % 2 ^ 9 * 2 ^ 13) % 2 ^ 32

unfoldable pub unfold_pse36 : (val : ℕ) → ℕ
unfold_pse36 val = without_pse36 val + val / 2 ^ 13 % 2 ^ 9 * 2 ^ 32

-- `x & PADDR_MASK & PAGE_MASK`
abbrev pub frame_bits : ℕ → ℕ
frame_bits x = x / 2 ^ 12 % 2 ^ 40 * 2 ^ 12

-- `x & ~(PADDR_MASK & PAGE_MASK)`
abbrev pub flag_bits : ℕ → ℕ
flag_bits x = x % 2 ^ 12 + x / 2 ^ 52 * 2 ^ 52

unfoldable pub pte_to_paddr : (pte : ℕ) → ℕ
pte_to_paddr pte = frame_bits pte

unfoldable pub pte_from_paddr : (paddr flags : ℕ) → ℕ
pte_from_paddr paddr flags = frame_bits paddr + flag_bits flags

unfoldable pub pte_from_gfn : (gfn flags : ℕ) → ℕ
pte_from_gfn gfn flags = pte_from_paddr (gfn * 2 ^ 12 % 2 ^ 64) flags

unfoldable pub pfn_to_virt : (pfn : ℕ) → ℕ
pfn_to_virt pfn = pfn * 2 ^ 12 % 2 ^ 64

unfoldable pub virt_to_pfn : (va : ℕ) → ℕ
virt_to_pfn va = va / 2 ^ 12

-- A PV guest, by Xen's table of frames and its own.
module _ (m2p p2m : ℕ → ℕ) where
  unfoldable pub mfn_to_virt : (mfn : ℕ) → ℕ
  mfn_to_virt mfn = pfn_to_virt (m2p mfn)

  unfoldable pub maddr_to_virt : (maddr : ℕ) → ℕ
  maddr_to_virt maddr = (mfn_to_virt (maddr / 2 ^ 12) + maddr % 2 ^ 12) % 2 ^ 64

  unfoldable pub virt_to_mfn : (va : ℕ) → ℕ
  virt_to_mfn va = p2m (virt_to_pfn va)

  unfoldable pub virt_to_maddr : (va : ℕ) → ℕ
  virt_to_maddr va = (virt_to_mfn va * 2 ^ 12 % 2 ^ 64 + va % 2 ^ 12) % 2 ^ 64

  -- virt_to_gfn() is virt_to_mfn() here.
  unfoldable pub pte_from_virt : (va flags : ℕ) → ℕ
  pte_from_virt va flags = pte_from_paddr (virt_to_mfn va * 2 ^ 12 % 2 ^ 64) flags
