-- ===== src/Hpet.antt =====
-- arch/x86/hpet.c and arch/x86/include/arch/hpet.h.
pub mod Counter
pub mod Timer
use xtf.Base.{
  ℕ, zero, suc, ◌+◌, ◌-◌, ◌*◌, ◌/◌, ◌%◌, ◌^◌, ◌==◌, ltb, Bool, true, false, if◌then◌else◌, ◌||◌,
}
use xtf.Base.Int.{ℤ, pos, negsuc}
use xtf.Base.Run.{Run, out_of_fuel, ok}

-- Accesses to the HPET by the offset of a register, and of the upper half of one. `W` is its state.
pub record Registers (W : Type 0) : Type 0 where
  pub hpet_read32 : (reg : ℕ) → W → ℕ × W
  pub hpet_read64 : (reg : ℕ) → W → ℕ × W
  pub hpet_write32 : (reg val : ℕ) → W → W
  pub hpet_write64 : (reg val : ℕ) → W → W

-- HPET_ID, HPET_CFG, HPET_COUNTER, HPET_Tn_CFG() and HPET_Tn_CMP()
abbrev pub hpet_id : ℕ
hpet_id = 0

abbrev pub hpet_cfg : ℕ
hpet_cfg = 16

abbrev pub hpet_counter : ℕ
hpet_counter = 240

abbrev pub hpet_tn_cfg : ℕ → ℕ
hpet_tn_cfg n = 256 + n * 32

abbrev pub hpet_tn_cmp : ℕ → ℕ
hpet_tn_cmp n = 264 + n * 32

-- a bool in a bit
abbrev pub flag_bit : Bool → ℕ
flag_bit true = 1
flag_bit false = 0

-- `union hpet_timer`, by its fields: the member `raw`
abbrev pub raw : (level enabled periodic mode_32bit : Bool) → (irq : ℕ) → ℕ
raw level enabled periodic mode_32bit irq =
    flag_bit level * 2
    + flag_bit enabled * 4
    + flag_bit periodic * 8
    + flag_bit mode_32bit * 256
    + irq % 2 ^ 5 * 512

module _ {W : Type 0} (hpet : Registers W) where
  -- the return value, `hpet_nr_timers` and the HPET
  unfoldable pub hpet_init : (hpet_nr_timers : ℕ) → W → ℤ × (ℕ × W)
  hpet_init hpet_nr_timers w =
      let (id, w) = hpet.hpet_read64 hpet_id w in
      let period = id / 2 ^ 32 in
      let sane : ℤ × (ℕ × W) = (pos 0, (id / 2 ^ 8 % 2 ^ 5 + 1, w)) in
      let absent : ℤ × (ℕ × W) = (negsuc 18, (hpet_nr_timers, w)) in
      if id == 2 ^ 64 - 1
      then absent
      else if period == 0 || ltb 100000000 period
      then absent
      else sane

  unfoldable pub hpet_init_timer : (nr irq ticks : ℕ) → (level periodic mode32bit : Bool) → W → W
  hpet_init_timer nr irq ticks level periodic mode32bit w =
      let (cfg, w) = hpet.hpet_read64 hpet_cfg w in
      let w = hpet.hpet_write64 hpet_cfg (cfg / 2 * 2) w in
      let w = hpet.hpet_write64 hpet_counter 0 w in
      let w = hpet.hpet_write32 (hpet_tn_cfg nr) (raw level true periodic mode32bit irq) w in
      let w = hpet.hpet_write64 (hpet_tn_cmp nr) ticks w in
      hpet.hpet_write64 hpet_cfg (cfg / 2 * 2 + 1) w

  -- hpet_read_counter() without CONFIG_64BIT
  unfoldable pub hpet_read_counter32 : (rounds : ℕ) → W → Run (ℕ × W)
  hpet_read_counter32 zero w = out_of_fuel
  hpet_read_counter32 (suc rounds) w =
      let (hi, w) = hpet.hpet_read32 (hpet_counter + 4) w in
      let (lo, w) = hpet.hpet_read32 hpet_counter w in
      let (again, w) = hpet.hpet_read32 (hpet_counter + 4) w in
      let rest = hpet_read_counter32 rounds w in
      if hi == again then ok (hi * 2 ^ 32 + lo, w) else rest

  -- and with it
  abbrev pub hpet_read_counter64 : W → ℕ × W
  hpet_read_counter64 w = hpet.hpet_read64 hpet_counter w
