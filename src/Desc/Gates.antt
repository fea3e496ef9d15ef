-- ===== src/Desc/Gates.antt =====
-- What is packed into a gate.
use xtf.Base.{ℕ, ◌+◌, ◌*◌, ◌/◌, ◌%◌, ◌^◌, ◌<◌, ◌≡◌, arith}
use xtf.Desc.{gate32_lo, gate32_hi, gate64_lo, gate64_hi, pack_x86_gate32, pack_x86_gate64}

-- What the processor's manual reads from the two words of a present interrupt or call gate.
pub record ReadsAs (lo hi type sel offset dpl ist : ℕ) : Type 0 where
  pub address : lo % 2 ^ 16 + lo / 2 ^ 48 * 2 ^ 16 + hi * 2 ^ 32 ≡ offset
  pub segment : lo / 2 ^ 16 % 2 ^ 16 ≡ sel
  pub stack : lo / 2 ^ 32 % 2 ^ 8 ≡ ist
  pub access : lo / 2 ^ 40 % 2 ^ 8 ≡ type + dpl * 2 ^ 5 + 2 ^ 7
  pub low : lo < 2 ^ 64
  pub high : hi < 2 ^ 64

-- From the two words of a gate that pack_x86_gate64() packs with arguments that fit their fields the
-- processor reads these arguments, and a set present bit.
pub pack_x86_gate64_lem :
    (type sel offset dpl ist : ℕ)
    → type < 2 ^ 4
    → sel < 2 ^ 16
    → offset < 2 ^ 64
    → dpl < 2 ^ 2
    → ist < 2 ^ 3
    → ReadsAs
        (gate64_lo (pack_x86_gate64 type sel offset dpl ist))
        (gate64_hi (pack_x86_gate64 type sel offset dpl ist))
        type
        sel
        offset
        dpl
        ist
unfolding pack_x86_gate64
pack_x86_gate64_lem type sel offset dpl ist a b c d e = record {
  address = omega arith;
  segment = omega arith;
  stack = omega arith;
  access = omega arith;
  low = omega arith;
  high = omega arith;
}

-- The same of the offset, selector and access byte of a gate of 32 bits.
pub pack_x86_gate32_lem :
    (type sel offset dpl count : ℕ)
    → type < 2 ^ 4
    → sel < 2 ^ 16
    → offset < 2 ^ 32
    → dpl < 2 ^ 2
    → (gate32_lo (pack_x86_gate32 type sel offset dpl count) % 2 ^ 16
          + gate32_hi (pack_x86_gate32 type sel offset dpl count) / 2 ^ 16 * 2 ^ 16
        ≡ offset)
      × (gate32_lo (pack_x86_gate32 type sel offset dpl count) / 2 ^ 16 ≡ sel)
      × (gate32_hi (pack_x86_gate32 type sel offset dpl count) / 2 ^ 8 % 2 ^ 8
          ≡ type + dpl * 2 ^ 5 + 2 ^ 7)
unfolding pack_x86_gate32
pack_x86_gate32_lem type sel offset dpl count a b c d = (omega arith, omega arith, omega arith)
