-- ===== src/IoApic.antt =====
-- arch/x86/io-apic.c and arch/x86/include/arch/io-apic.h.
pub mod Mask
use xtf.Base.{ℕ, ◌+◌, ◌-◌, ◌*◌, ◌/◌, ◌%◌, ◌^◌, ◌==◌, leb, Bool, true, false, if◌then◌else◌}
use xtf.Base.Int.{ℤ, pos, negsuc}

-- Accesses of 32 bits to memory that belongs to a device. `W` is the state of the devices.
pub record Mmio (W : Type 0) : Type 0 where
  pub read : (addr : ℕ) → W → ℕ × W
  pub write : (addr val : ℕ) → W → W

-- IOAPIC_DEFAULT_BASE + IOAPIC_REGSEL, and + IOAPIC_IOWIN
abbrev pub ioapic_regsel : ℕ
ioapic_regsel = 4273995776

abbrev pub ioapic_iowin : ℕ
ioapic_iowin = 4273995792

abbrev pub ioapic_redir_entry : ℕ → ℕ
ioapic_redir_entry e = 16 + e * 2

-- `redir &= ~(1u << IOAPIC_REDIR_MASK_SHIFT)`, and the bit again if `mask`
abbrev pub with_mask : Bool → ℕ → ℕ
with_mask mask redir = redir % 2 ^ 16 + (if mask then 2 ^ 16 else 0) + redir / 2 ^ 17 * 2 ^ 17

module _ {W : Type 0} (mmio : Mmio W) where
  unfoldable pub ioapic_read32 : (reg : ℕ) → W → ℕ × W
  ioapic_read32 reg w = mmio.read ioapic_iowin (mmio.write ioapic_regsel reg w)

  -- The operands of the OR are evaluated from left to right here.
  unfoldable pub ioapic_read64 : (reg : ℕ) → W → ℕ × W
  ioapic_read64 reg w =
      let (lo, w) = ioapic_read32 reg w in
      let (hi, w) = ioapic_read32 (reg + 1) w in (lo + hi * 2 ^ 32, w)

  unfoldable pub ioapic_write32 : (reg val : ℕ) → W → W
  ioapic_write32 reg val w = mmio.write ioapic_iowin val (mmio.write ioapic_regsel reg w)

  unfoldable pub ioapic_write64 : (reg val : ℕ) → W → W
  ioapic_write64 reg val w =
      ioapic_write32 (reg + 1) (val / 2 ^ 32) (ioapic_write32 reg (val % 2 ^ 32) w)

  -- the return value, `nr_entries` and the devices
  unfoldable pub ioapic_init : (nr_entries : ℕ) → W → ℤ × (ℕ × W)
  ioapic_init nr_entries w =
      let (id, w) = ioapic_read32 0 w in
      let (version, w') = ioapic_read32 1 w in
      if id == 2 ^ 32 - 1
      then (negsuc 18, (nr_entries, w))
      else (pos 0, (version / 2 ^ 16 % 2 ^ 8 + 1, w'))

  unfoldable pub ioapic_set_mask : (nr_entries entry : ℕ) → Bool → W → ℤ × W
  ioapic_set_mask nr_entries entry mask w =
      let (redir, w') = ioapic_read32 (ioapic_redir_entry entry) w in
      if leb nr_entries entry
      then (negsuc 21, w)
      else (pos 0, ioapic_write32 (ioapic_redir_entry entry) (with_mask mask redir) w')
