-- ===== src/Tests/Apic.antt =====
-- arch/x86/apic.c at concrete inputs.
use mathlib.Core.Option.{some-injective}
use xtf.Base.{ℕ, ◌≡◌, refl, sym, ◌==◌, if◌then◌else◌, true, some, arith}
use xtf.Base.Int.{ℤ}
use xtf.Apic.{ApicMode, Processor, apic_init}
use xtf.Apic.Mode.{KeepsBase, InMode, apic_init-InMode}

-- a processor of which only MSR_APICBASE is kept
abbrev cpu : Processor ℕ
cpu = record {
  rdmsr_safe = λ msr w. some w;
  rdmsr = λ msr w. w;
  wrmsr = λ msr v w. if msr == 0x1b then v else w;
  mmio_write = λ address v w. w;
  mmio_read = λ address w. 0;
}

cpu-KeepsBase : KeepsBase cpu (λ w. w)
cpu-KeepsBase = record {
  reads = λ w. refl;
  writes = λ v w. refl;
  others = λ msr v w ne. ground (arith, ne);
  stores = λ address v w. refl;
}

-- from xAPIC mode to x2APIC mode
apic_init-InMode_example :
    (r : ℤ × (ApicMode × ℕ)) × (apic_init cpu true ApicMode.x2apic (ApicMode.unknown, 0xfee00900)
      ≡ some r)
    × InMode cpu true (λ w. w) cpu-KeepsBase ApicMode.x2apic r
apic_init-InMode_example =
    apic_init-InMode cpu true (λ w. w) cpu-KeepsBase ApicMode.x2apic ApicMode.unknown 0xfee00900
      (omega arith) (λ v e. sym (some-injective 0xfee00900 v e)) (λ ne. absurd (ne refl))
