-- ===== src/IoApic/Mask.antt =====
-- ioapic_set_mask() against an IO-APIC.
use xtf.Base.{
  ℕ, ◌+◌, ◌-◌, ◌*◌, ◌/◌, ◌%◌, ◌^◌, ◌<◌, ◌≤◌, ◌≡◌, ◌⊎◌, refl, ap, ◌∙◌, sym, ◌==◌, leb, Bool, true,
  false, if◌then◌else◌, arith, Bool-cases, inl, inr,
}
use xtf.Base.Int.{pos, negsuc}
use xtf.IoApic.{
  Mmio, ioapic_regsel, ioapic_iowin, ioapic_redir_entry, with_mask, ioapic_read32, ioapic_write32,
  ioapic_set_mask,
}

-- What is stored where `val` is written: bits 12 and 14 of a redirection entry are read only.
abbrev pub stored : (old val : ℕ) → ℕ
stored old val =
    val % 2 ^ 12
    + old / 2 ^ 12 % 2 * 2 ^ 12
    + val / 2 ^ 13 % 2 * 2 ^ 13
    + old / 2 ^ 14 % 2 * 2 ^ 14
    + val / 2 ^ 15 * 2 ^ 15

-- The registers of an IO-APIC and which of them is selected. The selector has 8 bits.
pub record IsIoApic {W : Type 0} (mmio : Mmio W) (regs : W → ℕ → ℕ) (selected : W → ℕ)
    : Type 0 where
  pub select : (w : W) (reg : ℕ) → reg < 2 ^ 8 → selected (mmio.write ioapic_regsel reg w) ≡ reg
  pub select_keeps : (w : W) (reg r : ℕ) → regs (mmio.write ioapic_regsel reg w) r ≡ regs w r
  pub reads : (w : W) → (mmio.read ioapic_iowin w).0 ≡ regs w (selected w)
  pub read_keeps : (w : W) (r : ℕ) → regs (mmio.read ioapic_iowin w).1 r ≡ regs w r
  pub writes :
      (w : W) (val r : ℕ)
      → 16 ≤ selected w
      → regs (mmio.write ioapic_iowin val w) r
        ≡ (if r == selected w then stored (regs w r) val else regs w r)

-- a register whose bit 16 is set, or cleared
abbrev pub masked : Bool → ℕ → ℕ
masked true old = if old / 2 ^ 16 % 2 == 1 then old else old + 2 ^ 16
masked false old = if old / 2 ^ 16 % 2 == 1 then old - 2 ^ 16 else old

with_mask-masked : (mask : Bool) (old : ℕ) → with_mask mask old ≡ masked mask old
with_mask-masked true old = ground arith
with_mask-masked false old = ground arith

stored-with_mask : (mask : Bool) (old : ℕ) → stored old (with_mask mask old) ≡ with_mask mask old
stored-with_mask true old = omega arith
stored-with_mask false old = omega arith

within :
    (nr_entries entry : ℕ)
    → leb nr_entries entry ≡ false
    → (nr_entries ≤ entry) ⊎ (entry < 120)
    → entry < 120
within nr_entries entry there (inl h) = absurd (ground (arith, there, h))
within nr_entries entry there (inr h) = h

module _ {W : Type 0} (mmio : Mmio W) (regs : W → ℕ → ℕ) (selected : W → ℕ)
    (apic : IsIoApic mmio regs selected) where
  -- the read and the write of one entry
  changed :
      (entry : ℕ) (mask : Bool) (w : W)
      → entry < 120
      → (r : ℕ)
      → regs
          (mmio.write ioapic_iowin
            (with_mask mask
              (mmio.read ioapic_iowin (mmio.write ioapic_regsel (ioapic_redir_entry entry) w)).0)
            (mmio.write ioapic_regsel
              (ioapic_redir_entry entry)
              (mmio.read ioapic_iowin (mmio.write ioapic_regsel (ioapic_redir_entry entry) w)).1))
          r
        ≡ (if r == ioapic_redir_entry entry then masked mask (regs w r) else regs w r)
  changed entry mask w small r =
      let reg = ioapic_redir_entry entry in
      let w1 = mmio.write ioapic_regsel reg w in
      let w2 = (mmio.read ioapic_iowin w1).1 in
      let w3 = mmio.write ioapic_regsel reg w2 in
      let at1 : selected w1 ≡ reg = apic.select w reg (omega arith) in
      let at3 : selected w3 ≡ reg = apic.select w2 reg (omega arith) in
      let old : (mmio.read ioapic_iowin w1).0 ≡ regs w reg =
        apic.reads w1 ∙ ap (regs w1) at1 ∙ apic.select_keeps w reg reg in
      let same : regs w3 r ≡ regs w r =
        apic.select_keeps w2 reg r ∙ apic.read_keeps w1 r ∙ apic.select_keeps w reg r in
      apic.writes w3 _ r (omega (arith, at3))
      ∙ rw (at3, same, old)
          (elim (Bool-cases (r == reg)) [
            | inl here ↦
                let e : r ≡ reg = ground (arith, here) in
                rw here (
                  ap (λ k. stored (regs w r) (with_mask mask (regs w k))) (sym e)
                  ∙ stored-with_mask mask (regs w r)
                  ∙ with_mask-masked mask (regs w r))
            | inr elsewhere ↦ rw elsewhere refl
          ])

  -- ioapic_set_mask() of an entry that the IO-APIC does not have, however large its number is, returns -EINVAL
  -- and leaves it alone. Of one that it has and that is one of the first 120, which the selector can
  -- reach, it sets or clears the mask bit, leaves every other bit of every register as it was, and
  -- returns 0.
  pub ioapic_set_mask_lem :
      (nr_entries entry : ℕ) (mask : Bool) (w : W) (r : ℕ)
      → (nr_entries ≤ entry) ⊎ (entry < 120)
      → ((ioapic_set_mask mmio nr_entries entry mask w).0
          ≡ (if leb nr_entries entry then negsuc 21 else pos 0))
        × (regs (ioapic_set_mask mmio nr_entries entry mask w).1 r ≡ (
            if leb nr_entries entry
            then regs w r
            else if r == ioapic_redir_entry entry
            then masked mask (regs w r)
            else regs w r))
  unfolding ioapic_set_mask ioapic_read32 ioapic_write32
  ioapic_set_mask_lem nr_entries entry mask w r reach = elim (Bool-cases (leb nr_entries entry)) [
    | inl none_such ↦ rw none_such (refl, refl)
    | inr there ↦
        let small : entry < 120 = within nr_entries entry there reach in
        rw there (refl, changed entry mask w small r)
  ]
