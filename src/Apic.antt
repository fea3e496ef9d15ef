-- ===== src/Apic.antt =====
-- arch/x86/apic.c and the register accesses of arch/x86/include/arch/apic.h.
pub mod Mode
use xtf.Base.{
  ℕ, ◌+◌, ◌-◌, ◌*◌, ◌/◌, ◌%◌, ◌^◌, ◌==◌, ltb, not, ◌&&◌, ◌||◌, Bool, true, false, if◌then◌else◌,
  Option, some, none,
}
use xtf.Base.Int.{ℤ, pos, negsuc}

pub data ApicMode : Type 0 where
  unknown absent disabled xapic x2apic : ApicMode

-- the values of the enumerators APIC_MODE_UNKNOWN, _NONE, _DISABLED, _XAPIC and _X2APIC
abbrev pub value : ApicMode → ℕ
value ApicMode.unknown = 0
value ApicMode.absent = 1
value ApicMode.disabled = 2
value ApicMode.xapic = 3
value ApicMode.x2apic = 4

-- the instructions, and the stores to the APIC's page; `none` is a fault
pub record Processor (W : Type 0) : Type 0 where
  pub rdmsr_safe : (msr : ℕ) → W → Option ℕ
  pub rdmsr : (msr : ℕ) → W → ℕ
  pub wrmsr : (msr val : ℕ) → W → W
  pub mmio_write : (address val : ℕ) → W → W
  pub mmio_read : (address : ℕ) → W → ℕ

-- `MSR_APICBASE`
abbrev pub apic_base : ℕ
apic_base = 0x1b

-- The bits 10, APICBASE_EXTD, and 11, APICBASE_ENABLE.
unfoldable pub mode_bits : ℕ → ℕ
mode_bits apicbase = apicbase / 2 ^ 10 % 4

unfoldable pub apicbase_to_mode : ℕ → ApicMode
apicbase_to_mode apicbase =
    if mode_bits apicbase == 0
    then ApicMode.disabled
    else if mode_bits apicbase == 2
    then ApicMode.xapic
    else if mode_bits apicbase == 3
    then ApicMode.x2apic
    else ApicMode.absent

-- `msrval & ~(APICBASE_EXTD | APICBASE_ENABLE)`
unfoldable pub without_mode : ℕ → ℕ
without_mode msrval = msrval - mode_bits msrval * 2 ^ 10

module _ {W : Type 0} (cpu : Processor W) (cpu_has_x2apic : Bool) where
  abbrev pub apic_mmio_write : (reg val : ℕ) → W → W
  apic_mmio_write reg val w = cpu.mmio_write (0xfee00000 + reg) val w

  abbrev pub apic_msr_write : (reg val : ℕ) → W → W
  apic_msr_write reg val w = cpu.wrmsr (0x800 + reg / 16) val w

  unfoldable pub apic_write : ApicMode → (reg val : ℕ) → W → W
  apic_write cur_apic_mode reg val w =
      if value cur_apic_mode == 3 then apic_mmio_write reg val w else apic_msr_write reg val w

  abbrev pub apic_mmio_read : (reg : ℕ) → W → ℕ
  apic_mmio_read reg w = cpu.mmio_read (0xfee00000 + reg) w

  abbrev pub apic_msr_read : (reg : ℕ) → W → ℕ
  apic_msr_read reg w = cpu.rdmsr (0x800 + reg / 16) w % 2 ^ 32

  unfoldable pub apic_read : ApicMode → (reg : ℕ) → W → ℕ
  apic_read cur_apic_mode reg w =
      if value cur_apic_mode == 3 then apic_mmio_read reg w else apic_msr_read reg w

  -- APIC_ICR2 is 0x310, and APIC_ICR 0x300.
  abbrev pub apic_mmio_icr_write : (val : ℕ) → W → W
  apic_mmio_icr_write val w =
      apic_mmio_write 0x300 (val % 2 ^ 32) (apic_mmio_write 0x310 (val / 2 ^ 32 % 2 ^ 32) w)

  abbrev pub apic_msr_icr_write : (val : ℕ) → W → W
  apic_msr_icr_write val w = cpu.wrmsr 0x830 (val % 2 ^ 64) w

  unfoldable pub apic_icr_write : ApicMode → (val : ℕ) → W → W
  apic_icr_write cur_apic_mode val w =
      if value cur_apic_mode == 3 then apic_mmio_icr_write val w else apic_msr_icr_write val w

  -- `Set the MMIO base back to default if necessary.`
  unfoldable pub reset_base : ℕ → W → W
  reset_base msrval w =
      if not (msrval / 4096 * 4096 == 0xfee00000)
      then cpu.wrmsr apic_base (msrval % 4096 + 0xfee00000) w
      else w

  -- the first pass, by what rdmsr_safe() returns
  unfoldable pub first_pass : Option ℕ → W → ApicMode × W
  first_pass none w = (ApicMode.absent, w)
  first_pass (some msrval) w = (apicbase_to_mode msrval, reset_base msrval w)

  unfoldable pub detect : ApicMode → W → ApicMode × W
  detect cur_apic_mode w =
      if value cur_apic_mode == 0
      then first_pass (cpu.rdmsr_safe apic_base w) w
      else (cur_apic_mode, w)

  -- from the cleared `msrval` on
  unfoldable pub cycle : ApicMode → ℕ → W → W
  cycle mode msrval w =
      let w = cpu.wrmsr apic_base msrval w in
      let w : W =
        if value mode == 3 || value mode == 4 then cpu.wrmsr apic_base (msrval + 2 ^ 11) w else w in
      if value mode == 4 then cpu.wrmsr apic_base (msrval + 2 ^ 11 + 2 ^ 10) w else w

  -- `Attempt to switch to the requested mode.`
  unfoldable pub switch : ApicMode → ApicMode × W → ApicMode × W
  switch mode (cur, w) =
      if not (value mode == value cur)
      then (mode, cycle mode (without_mode (cpu.rdmsr apic_base w)) w)
      else (cur, w)

  -- `Enable the APIC.`
  unfoldable pub enable : ApicMode × W → ℤ × (ApicMode × W)
  enable (cur, w) = (pos 0, (cur, apic_write cur 0xf0 0x1ff w))

  -- behind the first pass
  unfoldable pub select : ApicMode → ApicMode × W → ℤ × (ApicMode × W)
  select mode (cur, w) =
      if value cur == 1 || (value mode == 4 && not cpu_has_x2apic)
      then (negsuc 18, (cur, w))
      else enable (switch mode (cur, w))

  -- `none` is a failure of the assertion.
  unfoldable pub apic_init : ApicMode → ApicMode × W → Option (ℤ × (ApicMode × W))
  apic_init mode (cur, w) = if ltb 1 (value mode) then some (select mode (detect cur w)) else none
