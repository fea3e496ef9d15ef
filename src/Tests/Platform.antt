-- ===== src/Tests/Platform.antt =====
-- arch/x86/setup.c, hvm/traps.c and pv/traps.c at concrete inputs.
use xtf.Base.Int.{pos}
use xtf.Base.{ℕ, ◌+◌, ◌==◌, ◌&&◌, if◌then◌else◌, ◌≡◌, refl, length-replicate, replicate, arith}
use xtf.Base.Run.{Returns}
use xtf.Setup.{CpuidLeaf, Cpu, X86Vendor, find_xen_leaves, collect_cpuid}
use xtf.Setup.Leaves.{Searched, find_xen_leaves_lem}
use xtf.Setup.Features.{collect_cpuid-agrees}
use xtf.Desc.{Gate64, pack_intr_gate}
use xtf.Paging.{virt_to_pfn, pte_from_virt}
use xtf.PvTraps.{Xen, PvSymbols}
use xtf.HvmTraps.{Symbols, Tables, arch_init_traps}
use xtf.HvmTraps.Idt.{IsSized, Initialised, arch_init_traps-Initialised}

-- Xen behind Viridian leaves.
abbrev cpuid : (leaf subleaf : ℕ) → CpuidLeaf
cpuid leaf subleaf =
    if leaf == 0x40000100
    then record { a = 0x40000105; b = 0x566e6558; c = 0x65584d4d; d = 0x4d4d566e }
    else record { a = 0; b = 0; c = 0; d = 0 }

find_xen_leaves_lem_example : Searched cpuid 0x100 0x40000000 (find_xen_leaves cpuid 0)
find_xen_leaves_lem_example = find_xen_leaves_lem cpuid

-- two processors that differ in XSAVEOPT
abbrev with_xsaveopt : (xsaveopt leaf subleaf : ℕ) → CpuidLeaf
with_xsaveopt xsaveopt leaf subleaf =
    if leaf == 13 && subleaf == 1
    then record { a = xsaveopt; b = 0; c = 0; d = 0 }
    else record { a = 13; b = 7; c = 1; d = 0 }

abbrev blank : Cpu
blank = record {
  x86_features = replicate 10 0;
  x86_vendor = X86Vendor.vendor_unknown;
  max_leaf = 0;
  max_extd_leaf = 0;
  x86_family = 0;
  x86_model = 0;
  x86_stepping = 0;
  maxphysaddr = 0;
  maxvirtaddr = 0;
}

collect_cpuid-agrees_example :
    collect_cpuid (with_xsaveopt 0) blank ≡ collect_cpuid (with_xsaveopt 1) blank
collect_cpuid-agrees_example =
    collect_cpuid-agrees (with_xsaveopt 0) (with_xsaveopt 1) blank refl refl (λ e. refl) (λ e. refl)
      (λ e. refl) (λ e. refl) (λ e. refl) (λ e. refl)

abbrev symbols : Symbols
symbols = record {
  entry = λ v. 0x100000 + v;
  tss = 0x104000;
  start_user_text = 0x1000;
  end_user_text = 0x3000;
  start_user_data = 0x3000;
  end_user_data = 0x3000;
  start_user_bss = 0x5000;
  end_user_bss = 0x6000;
}

abbrev tables : Tables
tables = record {
  idt = replicate 256 (pack_intr_gate 0 0 0 0);
  gdt = replicate 15 (record { lo = 0; hi = 0 });
  l1_identmap = replicate 512 3;
}

tables-IsSized : IsSized symbols tables
unfolding virt_to_pfn
tables-IsSized = record {
  entry = λ i h. ground (arith, h);
  idt = length-replicate {A = Gate64} 256 (pack_intr_gate 0 0 0 0);
  gdt = omega arith;
  tss = omega arith;
  text = (omega arith, omega arith);
  rw_data = (omega arith, omega arith);
  bss = (omega arith, omega arith);
}

arch_init_traps-Initialised_example :
    Returns (Initialised symbols tables) (arch_init_traps symbols tables)
arch_init_traps-Initialised_example = arch_init_traps-Initialised symbols tables tables-IsSized

-- Xen's table of entries by linear address, where each hypercall succeeds
abbrev table : Xen (ℕ → ℕ)
table = record {
  set_trap_table = λ traps w. (pos 0, w);
  register_callback = λ cb w. (pos 0, w);
  update_va_mapping = λ linear npte flags w. (pos 0, λ x. if x == linear then npte else w x);
  set_gdt = λ frames n w. (pos 0, w);
  stack_switch = λ ss sp w. (pos 0, w);
  new_user_baseptr = λ mfn w. (pos 0, w);
  write_segments = λ sel w. w;
  read_cr3 = λ w. 0x1000;
}

abbrev shift : ℕ → ℕ
shift pfn = pfn + 4096

abbrev pv_symbols : PvSymbols
pv_symbols = record {
  entry = λ v. 0x100000 + v;
  entry_evtchn = 0x101000;
  entry_syscall = 0x102000;
  entry_sysenter = 0x103000;
  gdt = 0x105000;
  boot_stack = 0x106000;
}

abbrev behind : ℕ → ℕ
behind x =
    if x == 0 then 0 else if x == 0x105000 then pte_from_virt shift shift 0x105000 0x61 else 7
