-- ===== src/Apic/Mode.antt =====
-- The mode that apic_init() leaves the APIC in.
use xtf.Base.{
  ℕ, ◌+◌, ◌*◌, ◌/◌, ◌%◌, ◌^◌, ◌<◌, ◌≡◌, ◌≢◌, refl, ap, ◌∙◌, sym, ◌==◌, ltb, not, ◌&&◌, ◌||◌, Bool,
  true, false, if◌then◌else◌, Option, some, none, arith, Bool-cases, inl, inr,
}
use xtf.Base.Int.{ℤ, pos, negsuc}
use xtf.Apic.{
  ApicMode, value, Processor, apic_base, mode_bits, apicbase_to_mode, without_mode, apic_write,
  cycle, switch, enable, select, reset_base, first_pass, detect, apic_init,
}

-- MSR_APICBASE keeps what is written to it, and no other write changes it.
pub record KeepsBase {W : Type 0} (cpu : Processor W) (base : W → ℕ) : Type 0 where
  pub reads : (w : W) → cpu.rdmsr apic_base w ≡ base w
  pub writes : (v : ℕ) (w : W) → base (cpu.wrmsr apic_base v w) ≡ v
  pub others : (msr v : ℕ) (w : W) → msr ≢ apic_base → base (cpu.wrmsr msr v w) ≡ base w
  pub stores : (address v : ℕ) (w : W) → base (cpu.mmio_write address v w) ≡ base w

cleared : (v : ℕ) → mode_bits (without_mode v) ≡ 0
unfolding mode_bits without_mode
cleared v = omega arith

enabled : (v : ℕ) → mode_bits v ≡ 0 → mode_bits (v + 2 ^ 11) ≡ 2
unfolding mode_bits
enabled v h = omega (arith, h)

extended : (v : ℕ) → mode_bits v ≡ 0 → mode_bits (v + 2 ^ 11 + 2 ^ 10) ≡ 3
unfolding mode_bits
extended v h = omega (arith, h)

of_bits :
    (v : ℕ) (n : ℕ)
    → mode_bits v ≡ n
    → apicbase_to_mode v ≡ (
        if n == 0
        then ApicMode.disabled
        else if n == 2
        then ApicMode.xapic
        else if n == 3
        then ApicMode.x2apic
        else ApicMode.absent)
unfolding apicbase_to_mode
of_bits v n e = rw e refl

module _ {W : Type 0} (cpu : Processor W) (has_x2apic : Bool) (base : W → ℕ)
    (law : KeepsBase cpu base) where
  cycle_lem :
      (mode : ApicMode) (v : ℕ) (w : W)
      → 1 < value mode
      → mode_bits v ≡ 0
      → apicbase_to_mode (base (cycle cpu has_x2apic mode v w)) ≡ mode
  unfolding cycle
  cycle_lem ApicMode.unknown v w h e = absurd (omega (arith, h))
  cycle_lem ApicMode.absent v w h e = absurd (omega (arith, h))
  cycle_lem ApicMode.disabled v w h e = rw (law.writes v w) (of_bits v 0 e)
  cycle_lem ApicMode.xapic v w h e =
      rw (law.writes (v + 2 ^ 11) _) (of_bits (v + 2 ^ 11) 2 (enabled v e))
  cycle_lem ApicMode.x2apic v w h e =
      rw (law.writes (v + 2 ^ 11 + 2 ^ 10) _) (of_bits (v + 2 ^ 11 + 2 ^ 10) 3 (extended v e))

  -- How a call for `mode` ends: with -ENODEV, or with the APIC and the variable in that mode.
  pub data InMode (mode : ApicMode) : ℤ × (ApicMode × W) → Type 0 where
    refused : {s : ApicMode × W} → InMode mode (negsuc 18, s)
    entered : {w : W} → apicbase_to_mode (base w) ≡ mode → InMode mode (pos 0, (mode, w))

  split :
      (mode : ApicMode) (b : Bool) (x y : ℤ × (ApicMode × W))
      → (b ≡ true → InMode mode x)
      → (b ≡ false → InMode mode y)
      → InMode mode (if b then x else y)
  split mode true x y p q = p refl
  split mode false x y p q = q refl

  apic_write-base :
      (b : Bool) (v : ℕ) (w : W)
      → base
          (if b then cpu.mmio_write (0xfee00000 + 0xf0) v w else cpu.wrmsr (0x800 + 0xf0 / 16) v w)
        ≡ base w
  apic_write-base true v w = law.stores _ v w
  apic_write-base false v w = law.others _ v w (λ e. omega (arith, e))

  enable-InMode :
      (mode : ApicMode) (w : W)
      → apicbase_to_mode (base w) ≡ mode
      → InMode mode (enable cpu has_x2apic (mode, w))
  unfolding enable apic_write
  enable-InMode mode w e =
      entered (ap apicbase_to_mode (apic_write-base (value mode == 3) 0x1ff w) ∙ e)

  of_value : ℕ → ApicMode
  of_value n =
      if n == 0
      then ApicMode.unknown
      else if n == 1
      then ApicMode.absent
      else if n == 2
      then ApicMode.disabled
      else if n == 3
      then ApicMode.xapic
      else ApicMode.x2apic

  of_value-value : (m : ApicMode) → of_value (value m) ≡ m
  unfolding of_value
  of_value-value ApicMode.unknown = refl
  of_value-value ApicMode.absent = refl
  of_value-value ApicMode.disabled = refl
  of_value-value ApicMode.xapic = refl
  of_value-value ApicMode.x2apic = refl

  same_mode : (a b : ApicMode) → value a ≡ value b → a ≡ b
  same_mode a b e = sym (of_value-value a) ∙ ap of_value e ∙ of_value-value b

  switched :
      (mode cur : ApicMode) (w : W) (b : Bool)
      → not (value mode == value cur) ≡ b
      → 1 < value mode
      → cur ≡ apicbase_to_mode (base w)
      → InMode mode (
          enable cpu has_x2apic (
            if b
            then (mode, cycle cpu has_x2apic mode (without_mode (cpu.rdmsr apic_base w)) w)
            else (cur, w)))
  switched mode cur w true t h e =
      enable-InMode mode _ (cycle_lem mode (without_mode (cpu.rdmsr apic_base w)) w h (cleared _))
  switched mode cur w false t h e =
      let is : cur ≡ mode = same_mode cur mode (ground (arith, t)) in
      rw is (enable-InMode mode w (sym e ∙ is))

  select-InMode :
      (mode cur : ApicMode) (w : W)
      → 1 < value mode
      → (value cur ≢ 1 → cur ≡ apicbase_to_mode (base w))
      → InMode mode (select cpu has_x2apic mode (cur, w))
  unfolding select switch
  select-InMode mode cur w h e =
      split mode (value cur == 1 || (value mode == 4 && not has_x2apic)) _ _ (λ none_here. refused)
        (λ here.
          switched mode cur w (not (value mode == value cur)) refl h
            (e (λ one. ground (arith, here, one))))

  reset_base-mode :
      (v : ℕ) (w : W)
      → v ≡ base w
      → apicbase_to_mode v ≡ apicbase_to_mode (base (reset_base cpu has_x2apic v w))
  unfolding reset_base apicbase_to_mode mode_bits
  reset_base-mode v w e = elim (Bool-cases (not (v / 4096 * 4096 == 0xfee00000))) [
    | inl moved ↦
        let kept : (v % 4096 + 0xfee00000) / 2 ^ 10 % 4 ≡ v / 2 ^ 10 % 4 = omega arith in
        rw (moved, law.writes (v % 4096 + 0xfee00000) w, kept) refl
    | inr default ↦ rw (default, sym e) refl
  ]

  detected :
      (mode : ApicMode) (w : W) (answer : Option ℕ)
      → 1 < value mode
      → ((v : ℕ) → answer ≡ some v → v ≡ base w)
      → InMode mode (select cpu has_x2apic mode (first_pass cpu has_x2apic answer w))
  unfolding first_pass
  detected mode w none h k = select-InMode mode ApicMode.absent w h (λ ne. absurd (ne refl))
  detected mode w (some v) h k =
      select-InMode mode (apicbase_to_mode v) _ h (λ ne. reset_base-mode v w (k v refl))

  select_detected :
      (mode cur : ApicMode) (w : W)
      → 1 < value mode
      → ((v : ℕ) → cpu.rdmsr_safe apic_base w ≡ some v → v ≡ base w)
      → (value cur ≢ 0 → value cur ≢ 1 → cur ≡ apicbase_to_mode (base w))
      → InMode mode (select cpu has_x2apic mode (detect cpu has_x2apic cur w))
  unfolding detect
  select_detected mode ApicMode.unknown w h k e = detected mode w (cpu.rdmsr_safe apic_base w) h k
  select_detected mode ApicMode.absent w h k e =
      select-InMode mode ApicMode.absent w h (λ ne. absurd (ne refl))
  select_detected mode ApicMode.disabled w h k e =
      select-InMode mode ApicMode.disabled w h (e (λ z. omega (arith, z)))
  select_detected mode ApicMode.xapic w h k e =
      select-InMode mode ApicMode.xapic w h (e (λ z. omega (arith, z)))
  select_detected mode ApicMode.x2apic w h k e =
      select-InMode mode ApicMode.x2apic w h (e (λ z. omega (arith, z)))

  -- If MSR_APICBASE keeps what is written to it, rdmsr_safe() reads it or faults, and the variable, if it
  -- is not _UNKNOWN or _NONE, tells the mode that the APIC is in, then apic_init() for a mode above _NONE
  -- returns -ENODEV, or 0 with the APIC and the variable in the mode that was asked for.
  pub apic_init-InMode :
      (mode cur : ApicMode) (w : W)
      → 1 < value mode
      → ((v : ℕ) → cpu.rdmsr_safe apic_base w ≡ some v → v ≡ base w)
      → (value cur ≢ 0 → value cur ≢ 1 → cur ≡ apicbase_to_mode (base w))
      → (r : ℤ × (ApicMode × W)) × (apic_init cpu has_x2apic mode (cur, w) ≡ some r) × InMode mode r
  unfolding apic_init
  apic_init-InMode mode cur w h k e =
      let asked : ltb 1 (value mode) ≡ true = ground (arith, h) in
      (
        select cpu has_x2apic mode (detect cpu has_x2apic cur w),
        rw asked refl,
        select_detected mode cur w h k e,
      )
