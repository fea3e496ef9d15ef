-- ===== src/HvmTraps.antt =====
-- arch/x86/hvm/traps.c for x86_64: the interrupt descriptor table, the task register's descriptor and
-- the pages that are remapped for user mode.
pub mod Remap
pub mod Gates
pub mod Idt
use xtf.Base.{
  ℕ, zero, suc, ◌+◌, ◌-◌, ◌*◌, ◌/◌, ◌%◌, ◌^◌, ◌==◌, ltb, Bool, true, false, if◌then◌else◌, List, [],
  ◌∷◌, length, set, get_elem?,
}
use xtf.Base.Run.{Run, ok, fault, out_of_fuel, or_fault, ◌>>=◌}
use xtf.Paging.{virt_to_pfn}
use xtf.Desc.{Gate64, UserDesc, pack_intr_gate, pack_tss_desc}

-- `idt[vector] = gate`, an access outside of the table being a fault
abbrev pub put_gate : List Gate64 → (vector : ℕ) → Gate64 → Run (List Gate64)
put_gate idt vector gate = if ltb vector (length idt) then ok (set idt vector gate) else fault

-- `struct xtf_idte`
pub record XtfIdte : Type 0 where
  pub addr : ℕ
  pub cs : ℕ
  pub dpl : ℕ

unfoldable pub xtf_set_idte : (vector : ℕ) → XtfIdte → List Gate64 → Run (List Gate64)
xtf_set_idte vector idte idt = put_gate idt vector (pack_intr_gate idte.cs idte.addr idte.dpl 0)

-- `entry | _PAGE_USER`
abbrev pub with_user : ℕ → ℕ
with_user entry = if entry / 2 ^ 2 % 2 == 1 then entry else entry + 2 ^ 2

-- The loop with `n` pages left, from `start_gfn` on.
unfoldable pub remap_loop : (n start_gfn : ℕ) → List ℕ → Run (List ℕ)
remap_loop zero start_gfn l1_identmap = ok l1_identmap
remap_loop (suc n) start_gfn l1_identmap = or_fault (get_elem? l1_identmap start_gfn) >>= λ entry.
    remap_loop n (start_gfn + 1) (set l1_identmap start_gfn (with_user entry))

unfoldable pub remap_user : (start_gfn end_gfn : ℕ) → List ℕ → Run (List ℕ)
remap_user start_gfn end_gfn l1_identmap = remap_loop (end_gfn - start_gfn) start_gfn l1_identmap

-- the arguments of a call of pack_intr_gate(), less `__KERN_CS` and the address of the entry point
pub record Vector : Type 0 where
  pub vector : ℕ
  pub ring : ℕ
  pub ist : ℕ

abbrev pub kernel_gate : ℕ → Vector
kernel_gate vector = record { vector = vector; ring = 0; ist = 0 }

abbrev pub user_gate : ℕ → Vector
user_gate vector = record { vector = vector; ring = 3; ist = 0 }

-- in the order of the calls; the last two are the double fault's and X86_VEC_RET2KERN's
abbrev pub vectors : List Vector
vectors =
    kernel_gate 0
    ∷ kernel_gate 1
    ∷ kernel_gate 2
    ∷ user_gate 3
    ∷ user_gate 4
    ∷ kernel_gate 5
    ∷ kernel_gate 6
    ∷ kernel_gate 7
    ∷ kernel_gate 10
    ∷ kernel_gate 11
    ∷ kernel_gate 12
    ∷ kernel_gate 13
    ∷ kernel_gate 14
    ∷ kernel_gate 16
    ∷ kernel_gate 17
    ∷ kernel_gate 18
    ∷ kernel_gate 19
    ∷ kernel_gate 20
    ∷ record { vector = 8; ring = 0; ist = 1 }
    ∷ user_gate 0x20
    ∷ []

-- `__KERN_CS`
abbrev pub kern_cs : ℕ
kern_cs = 8

-- The calls, for the addresses of the entry points by their vectors.
unfoldable pub pack_all : (entry : ℕ → ℕ) → List Vector → List Gate64 → Run (List Gate64)
pack_all entry [] idt = ok idt
pack_all entry (v ∷ vs) idt =
    put_gate idt v.vector (pack_intr_gate kern_cs (entry v.vector) v.ring v.ist) >>= λ idt.
    pack_all entry vs idt

-- the addresses that the linker gives
pub record Symbols : Type 0 where
  pub entry : ℕ → ℕ
  pub tss : ℕ
  pub start_user_text : ℕ
  pub end_user_text : ℕ
  pub start_user_data : ℕ
  pub end_user_data : ℕ
  pub start_user_bss : ℕ
  pub end_user_bss : ℕ

pub record Tables : Type 0 where
  pub idt : List Gate64
  pub gdt : List UserDesc
  pub l1_identmap : List ℕ

-- pack_tss_desc(&gdt[GDTE_TSS], &tss)
abbrev pub put_tss : ℕ → List UserDesc → Run (List UserDesc)
put_tss tss gdt =
    let (d0, d1) = pack_tss_desc tss in
    if ltb 8 (length gdt) then ok (set (set gdt 7 d0) 8 d1) else fault

-- virt_to_gfn() of an HVM guest, as an unsigned int
abbrev pub gfn_of : ℕ → ℕ
gfn_of va = virt_to_pfn va % 2 ^ 32

-- The loads of the registers by lidt() and ltr() change none of the tables.
unfoldable pub arch_init_traps : Symbols → Tables → Run Tables
arch_init_traps symbols tables = do
  idt ← pack_all symbols.entry vectors tables.idt
  gdt ← put_tss symbols.tss tables.gdt
  l1 ← remap_user (gfn_of symbols.start_user_text) (gfn_of symbols.end_user_text) tables.l1_identmap
  l1 ← remap_user (gfn_of symbols.start_user_data) (gfn_of symbols.end_user_data) l1
  l1 ← remap_user (gfn_of symbols.start_user_bss) (gfn_of symbols.end_user_bss) l1
  ok (record { idt = idt; gdt = gdt; l1_identmap = l1 })
