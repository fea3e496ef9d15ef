-- ===== src/Hpet/Timer.antt =====
-- hpet_init_timer() against the registers of an HPET.
use xtf.Base.{ℕ, ◌+◌, ◌*◌, ◌/◌, ◌%◌, ◌≡◌, ◌≢◌, ap, ◌∙◌, Bool, true, arith}
use xtf.Hpet.{Registers, hpet_cfg, hpet_counter, hpet_tn_cfg, hpet_tn_cmp, raw, hpet_init_timer}

-- A register other than the counter changes by a write to it only, provided that the counter is written
-- only while it is halted. `settle` is what becomes of a timer's configuration where `raw` is written to it.
pub record IsHpet {W : Type 0} (hpet : Registers W) (reg : W → ℕ → ℕ) (settle : (old raw : ℕ) → ℕ)
    : Type 0 where
  pub reads : (w : W) → (hpet.hpet_read64 hpet_cfg w).0 ≡ reg w hpet_cfg
  pub read_keeps :
      (w : W) (x : ℕ) → x ≢ hpet_counter → reg (hpet.hpet_read64 hpet_cfg w).1 x ≡ reg w x
  pub writes_cfg : (w : W) (val : ℕ) → reg (hpet.hpet_write64 hpet_cfg val w) hpet_cfg ≡ val
  pub write64_keeps :
      (w : W) (r val x : ℕ)
      → x ≢ r
      → x ≢ hpet_counter
      → (r ≡ hpet_counter → reg w hpet_cfg % 2 ≡ 0)
      → reg (hpet.hpet_write64 r val w) x ≡ reg w x
  pub writes_timer :
      (w : W) (nr val : ℕ)
      → reg (hpet.hpet_write32 (hpet_tn_cfg nr) val w) (hpet_tn_cfg nr)
        ≡ settle (reg w (hpet_tn_cfg nr)) val
  pub write32_keeps :
      (w : W) (r val x : ℕ) → x ≢ r → x ≢ hpet_counter → reg (hpet.hpet_write32 r val w) x ≡ reg w x

module _ {W : Type 0} (hpet : Registers W) (reg : W → ℕ → ℕ) (settle : (old raw : ℕ) → ℕ)
    (device : IsHpet hpet reg settle) (nr irq ticks : ℕ) (level periodic mode32bit : Bool)
    (w : W) where
  -- the states behind the accesses
  abbrev w0 : W
  w0 = (hpet.hpet_read64 hpet_cfg w).1

  abbrev w1 : W
  w1 = hpet.hpet_write64 hpet_cfg ((hpet.hpet_read64 hpet_cfg w).0 / 2 * 2) w0

  abbrev w2 : W
  w2 = hpet.hpet_write64 hpet_counter 0 w1

  abbrev w3 : W
  w3 = hpet.hpet_write32 (hpet_tn_cfg nr) (raw level true periodic mode32bit irq) w2

  abbrev w4 : W
  w4 = hpet.hpet_write64 (hpet_tn_cmp nr) ticks w3

  halted : reg w1 hpet_cfg % 2 ≡ 0
  halted = omega (arith, device.writes_cfg w0 ((hpet.hpet_read64 hpet_cfg w).0 / 2 * 2))

  to_w2 : (x : ℕ) → x ≢ hpet_cfg → x ≢ hpet_counter → reg w2 x ≡ reg w x
  to_w2 x a b =
      device.write64_keeps w1 hpet_counter 0 x b b (λ e. halted)
      ∙ device.write64_keeps w0 hpet_cfg _ x a b (λ e. absurd (omega (arith, e)))
      ∙ device.read_keeps w x b

  from_w3 :
      (x : ℕ)
      → x ≢ hpet_cfg
      → x ≢ hpet_counter
      → x ≢ hpet_tn_cmp nr
      → reg (hpet_init_timer hpet nr irq ticks level periodic mode32bit w) x ≡ reg w3 x
  unfolding hpet_init_timer
  from_w3 x a b c =
      device.write64_keeps w4 hpet_cfg _ x a b (λ e. absurd (omega (arith, e)))
      ∙ device.write64_keeps w3 (hpet_tn_cmp nr) ticks x c b (λ e. absurd (omega (arith, e)))

  -- hpet_init_timer() leaves the main counter enabled and the other bits of HPET_CFG as they were,
  -- has written the configuration of the timer, and has changed no other register but the counter and
  -- the timer's comparator.
  pub hpet_init_timer_lem :
      (reg (hpet_init_timer hpet nr irq ticks level periodic mode32bit w) hpet_cfg
        ≡ reg w hpet_cfg / 2 * 2 + 1)
      × (reg (hpet_init_timer hpet nr irq ticks level periodic mode32bit w) (hpet_tn_cfg nr)
          ≡ settle (reg w (hpet_tn_cfg nr)) (raw level true periodic mode32bit irq))
      × ((x : ℕ)
          → x ≢ hpet_cfg
          → x ≢ hpet_counter
          → x ≢ hpet_tn_cfg nr
          → x ≢ hpet_tn_cmp nr
          → reg (hpet_init_timer hpet nr irq ticks level periodic mode32bit w) x ≡ reg w x)
  unfolding hpet_init_timer
  hpet_init_timer_lem = (
    device.writes_cfg w4 _ ∙ ap (λ (v : ℕ). v / 2 * 2 + 1) (device.reads w),
    from_w3 (hpet_tn_cfg nr) (λ e. omega (arith, e)) (λ e. omega (arith, e)) (λ e. omega (arith, e))
        ∙ device.writes_timer w2 nr _
        ∙ ap (λ (v : ℕ). settle v (raw level true periodic mode32bit irq))
            (to_w2 (hpet_tn_cfg nr) (λ e. omega (arith, e)) (λ e. omega (arith, e))),
    λ x a b c d. from_w3 x a b d ∙ device.write32_keeps w2 (hpet_tn_cfg nr) _ x c b ∙ to_w2 x a b,
  )
