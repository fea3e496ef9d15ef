-- ===== src/Tests/Devices.antt =====
-- Paging, descriptors, the IO-APIC and the HPET at concrete inputs.
use xtf.Base.{ℕ, ◌+◌, ◌/◌, ◌%◌, ◌^◌, ◌≡◌, refl, inr, ◌==◌, true, if◌then◌else◌, arith}
use xtf.Base.Int.{pos}
use xtf.Paging.{pte_to_paddr, pte_from_virt, maddr_to_virt, virt_to_maddr}
use xtf.Paging.Entries.{maddr_to_virt-virt_to_maddr}
use xtf.Desc.{gate64_lo, gate64_hi, pack_x86_gate64}
use xtf.Desc.Gates.{ReadsAs, pack_x86_gate64_lem}
use xtf.IoApic.{Mmio, ioapic_regsel, ioapic_set_mask}
use xtf.IoApic.Mask.{stored, IsIoApic, ioapic_set_mask_lem}
use xtf.Hpet.{Registers}
use xtf.Hpet.Counter.{Counts}

-- The guest's frames start at machine frame 4096.
abbrev m2p : ℕ → ℕ
m2p mfn = (mfn + 2 ^ 40) % (2 ^ 40 + 4096)

abbrev p2m : ℕ → ℕ
p2m pfn = pfn + 4096

maddr_to_virt-virt_to_maddr_example :
    (maddr_to_virt m2p p2m (virt_to_maddr m2p p2m 1056789) ≡ 1056789)
    × (pte_to_paddr (pte_from_virt m2p p2m 1056789 103) + 1056789 % 2 ^ 12
        ≡ virt_to_maddr m2p p2m 1056789)
maddr_to_virt-virt_to_maddr_example =
    maddr_to_virt-virt_to_maddr m2p p2m 1056789 103 (omega arith) (omega arith) refl

pack_x86_gate64_lem_example :
    ReadsAs
      (gate64_lo (pack_x86_gate64 14 8 1193046 3 1))
      (gate64_hi (pack_x86_gate64 14 8 1193046 3 1))
      14
      8
      1193046
      3
      1
pack_x86_gate64_lem_example =
    pack_x86_gate64_lem 14 8 1193046 3 1 (omega arith) (omega arith) (omega arith) (omega arith)
      (omega arith)

-- an IO-APIC by its selector and its registers
abbrev State : Type 0
State = ℕ × (ℕ → ℕ)

abbrev chip : Mmio State
chip = record {
  read = λ addr (s, regs). (regs s, (s, regs));
  write = λ addr val (s, regs).
      if addr == ioapic_regsel
      then (val % 2 ^ 8, regs)
      else (s, λ r. if r == s then stored (regs r) val else regs r);
}

chip-IsIoApic : IsIoApic chip (λ w. w.1) (λ w. w.0)
chip-IsIoApic = record {
  select = λ w reg h. omega arith;
  select_keeps = λ w reg r. refl;
  reads = λ w. refl;
  read_keeps = λ w r. refl;
  writes = λ w val r h. refl;
}

abbrev chip_state : State
chip_state = (0, λ r. 5)

ioapic_set_mask_lem_example :
    ((ioapic_set_mask chip 24 3 true chip_state).0 ≡ pos 0)
    × ((ioapic_set_mask chip 24 3 true chip_state).1.1 22 ≡ 65541)
ioapic_set_mask_lem_example =
    ioapic_set_mask_lem chip (λ w. w.1) (λ w. w.0) chip-IsIoApic 24 3 true chip_state 22
      (inr (omega arith))

-- An HPET whose counter advances by one with each access.
abbrev ticker : Registers ℕ
ticker = record {
  hpet_read32 = λ reg w. (if reg == 244 then w / 2 ^ 32 else w % 2 ^ 32, w + 1);
  hpet_read64 = λ reg w. (w, w + 1);
  hpet_write32 = λ reg val w. w;
  hpet_write64 = λ reg val w. w;
}

ticker-Counts : Counts ticker (λ w. w)
ticker-Counts = record {
  high = λ w. refl;
  low = λ w. refl;
  runs = λ w reg. omega arith;
  slow = λ w reg. omega arith;
}
