-- ===== src/Div/Agree.antt =====
-- The two builds of divmod64().
use xtf.Base.{
  ℕ, zero, suc, ◌+◌, ◌*◌, ◌/◌, ◌%◌, ◌^◌, ◌<◌, ◌≡◌, ◌∙◌, sym, ap, ap₂, ltb, if◌then◌else◌, arith,
}
use native.Mathlib.Nat.{
  div-add-mod', div-lt_iff_lt-mul, mod-lt, add-mul-div_right, add-mul-mod_self_right, zero-div,
  zero-mod,
}
use xtf.Base.Run.{ok}
use xtf.Div.{divmod64, divl, join, divmod64_32}

-- the dividend of the second division, and what the first one took off
split_dividend :
    (n k : ℕ)
    → n ≡ (n / 2 ^ 32 % suc k * 2 ^ 32 + n % 2 ^ 32) + (n / 2 ^ 32 / suc k * 2 ^ 32) * suc k
split_dividend n k = ground (arith, div-add-mod' (n / 2 ^ 32) (suc k), div-add-mod' n (2 ^ 32))

quotient_fits : (n k : ℕ) → (n / 2 ^ 32 % suc k * 2 ^ 32 + n % 2 ^ 32) / suc k < 2 ^ 32
quotient_fits n k = (div-lt_iff_lt-mul (omega arith)).1 (
    ground
      (arith, mod-lt (n / 2 ^ 32) {m = suc k} (omega arith), mod-lt n {m = 2 ^ 32} (omega arith)))

high_mod : (h k : ℕ) → (if ltb 0 h then h % suc k else 0) ≡ h % suc k
high_mod zero k = sym (zero-mod (suc k))
high_mod (suc h) k = ground arith

high_div : (h k : ℕ) → (if ltb 0 h then h / suc k else h) ≡ h / suc k
high_div zero k = sym (zero-div (suc k))
high_div (suc h) k = ground arith

divl_lem :
    (d a k : ℕ)
    → (d * 2 ^ 32 + a) / suc k < 2 ^ 32
    → divl d a (suc k) ≡ ok ((d * 2 ^ 32 + a) % suc k, (d * 2 ^ 32 + a) / suc k)
unfolding divl
divl_lem d a k h = ground arith

-- The build for i386 divides as that for x86_64 does: for a divisor that is not 0 its `divl` raises
-- no #DE, and the remainder and the quotient are those of the 64-bit division.
pub divmod64_32_lem : (n d : ℕ) → 0 < d → divmod64_32 n d ≡ ok (divmod64 n d)
unfolding divmod64_32 divmod64
divmod64_32_lem n zero h = absurd (omega arith)
divmod64_32_lem n (suc k) h =
    let low = n / 2 ^ 32 % suc k * 2 ^ 32 + n % 2 ^ 32 in
    let high = n / 2 ^ 32 / suc k * 2 ^ 32 in
    let rem : low % suc k ≡ n % suc k =
      sym (ap (λ m. m % suc k) (split_dividend n k) ∙ add-mul-mod_self_right low high (suc k)) in
    let quot : high + low / suc k ≡ n / suc k = ground (
      arith,
      ap (λ m. m / suc k) (split_dividend n k)
          ∙ add-mul-div_right low high {z = suc k} (omega arith),
    ) in
    ap₂ join (high_div (n / 2 ^ 32) k) (
      ap (λ u. divl u (n % 2 ^ 32) (suc k)) (high_mod (n / 2 ^ 32) k)
      ∙ divl_lem (n / 2 ^ 32 % suc k) (n % 2 ^ 32) k (quotient_fits n k))
    ∙ ap₂ (λ a b. ok (a, b)) rem quot
