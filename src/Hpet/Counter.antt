-- ===== src/Hpet/Counter.antt =====
-- The counter that is read in two halves.
use xtf.Base.{
  ℕ, suc, ◌+◌, ◌*◌, ◌/◌, ◌%◌, ◌^◌, ◌<◌, ◌≤◌, ◌≡◌, ◌==◌, true, arith, Bool-cases, inl, inr,
}
use xtf.Base.Run.{Returns, returned, Returns-weaken}
use xtf.Hpet.{Registers, hpet_counter, hpet_read_counter32}

-- The counter runs while its halves are read, by less than 2^24 ticks from an access to the next.
pub record Counts {W : Type 0} (hpet : Registers W) (counter : W → ℕ) : Type 0 where
  pub high : (w : W) → (hpet.hpet_read32 (hpet_counter + 4) w).0 ≡ counter w / 2 ^ 32
  pub low : (w : W) → (hpet.hpet_read32 hpet_counter w).0 ≡ counter w % 2 ^ 32
  pub runs : (w : W) (reg : ℕ) → counter w ≤ counter (hpet.hpet_read32 reg w).1
  pub slow : (w : W) (reg : ℕ) → counter (hpet.hpet_read32 reg w).1 < counter w + 2 ^ 24

module _ {W : Type 0} (hpet : Registers W) (counter : W → ℕ) (counts : Counts hpet counter) where
  -- the state behind each access of a round
  abbrev first : W → W
  first w = (hpet.hpet_read32 (hpet_counter + 4) w).1

  abbrev second : W → W
  second w = (hpet.hpet_read32 hpet_counter (first w)).1

  abbrev third : W → W
  third w = (hpet.hpet_read32 (hpet_counter + 4) (second w)).1

  Read : W → ℕ × W → Type 0
  Read w x = (counter w ≤ x.0) × (x.0 ≤ counter x.1)

  -- Halves that agree are those of one count.
  agreed :
      (w : W)
      → counter w / 2 ^ 32 ≡ counter (second w) / 2 ^ 32
      → Read w (counter w / 2 ^ 32 * 2 ^ 32 + counter (first w) % 2 ^ 32, third w)
  unfolding Read
  agreed w e =
      let a = counts.runs w (hpet_counter + 4) in
      let b = counts.runs (first w) hpet_counter in
      let c = counts.runs (second w) (hpet_counter + 4) in
      (omega (arith, a, b, c, e), omega (arith, a, b, c, e))

  -- a round behind which the upper half is about to stay the same
  quick_round :
      (rounds : ℕ) (w : W)
      → counter w % 2 ^ 32 < 2 ^ 26
      → Returns (Read w) (hpet_read_counter32 hpet (suc rounds) w)
  unfolding hpet_read_counter32
  quick_round rounds w h =
      let e : counter w / 2 ^ 32 ≡ counter (second w) / 2 ^ 32 = omega (
        arith,
        h,
        counts.runs w (hpet_counter + 4),
        counts.runs (first w) hpet_counter,
        counts.slow w (hpet_counter + 4),
        counts.slow (first w) hpet_counter,
      ) in
      let t : (counter w / 2 ^ 32 == counter (second w) / 2 ^ 32) ≡ true = ground (arith, e) in
      rw (counts.high w, counts.low (first w), counts.high (second w), t) (returned (agreed w e))

  -- While the counter runs as Counts says, hpet_read_counter() on 32 bits ends within two rounds, with a
  -- value that is not below the counter before nor above the counter behind it.
  pub hpet_read_counter32_lem :
      (rounds : ℕ) (w : W)
      → Returns
          (λ (x : ℕ × W). (counter w ≤ x.0) × (x.0 ≤ counter x.1))
          (hpet_read_counter32 hpet (suc (suc rounds)) w)
  unfolding hpet_read_counter32 Read
  hpet_read_counter32_lem rounds w =
      elim (Bool-cases (counter w / 2 ^ 32 == counter (second w) / 2 ^ 32)) [
        | inl same ↦
            rw (counts.high w, counts.low (first w), counts.high (second w), same)
              (returned (agreed w (ground (arith, same))))
        | inr crossed ↦
            let a = counts.runs w (hpet_counter + 4) in
            let b = counts.runs (first w) hpet_counter in
            let c = counts.runs (second w) (hpet_counter + 4) in
            let n : counter w / 2 ^ 32 < counter (second w) / 2 ^ 32 =
              ground (arith, a, b, crossed) in
            let h : counter (third w) % 2 ^ 32 < 2 ^ 26 = omega (
              arith,
              n,
              a,
              b,
              c,
              counts.slow w (hpet_counter + 4),
              counts.slow (first w) hpet_counter,
              counts.slow (second w) (hpet_counter + 4),
            ) in
            rw (counts.high w, counts.high (second w), crossed)
              (Returns-weaken (quick_round rounds (third w) h)
                (λ x (l, u). (omega (arith, l, a, b, c), u)))
      ]
