-- ===== src/Div.antt =====
-- arch/x86/include/arch/div.h: the division of a 64-bit number by a 32-bit one. Each function
-- returns the remainder and the new value of `*dividend`.
pub mod Agree
use xtf.Base.{
  ℕ, zero, suc, ◌+◌, ◌*◌, ◌/◌, ◌%◌, ◌^◌, ◌≤◌, ◌<◌, ◌≡◌, ltb, leb, if◌then◌else◌, arith, refl,
}
use xtf.Base.Run.{Run, ok, fault}
use native.Mathlib.Nat.{div-add-mod}

-- the build for x86_64: one `div`
unfoldable pub divmod64 : ℕ → ℕ → ℕ × ℕ
divmod64 dividend divisor = (dividend % divisor, dividend / divisor)

-- `divl`: the remainder and the quotient of `d * 2^32 + a`; #DE if the quotient has no room in %eax
-- or the divisor is 0
unfoldable pub divl : (d a divisor : ℕ) → Run (ℕ × ℕ)
divl d a zero = fault
divl d a (suc k) =
    let n = d * 2 ^ 32 + a in if ltb (n / suc k) (2 ^ 32) then ok (n % suc k, n / suc k) else fault

-- `*dividend` and the result behind the second division
abbrev pub join : ℕ → Run (ℕ × ℕ) → Run (ℕ × ℕ)
join high (ok (rem, low)) = ok (rem, high * 2 ^ 32 + low)
join high r = r

-- the build for i386: two divisions
unfoldable pub divmod64_32 : ℕ → ℕ → Run (ℕ × ℕ)
divmod64_32 dividend divisor =
    let high = dividend / 2 ^ 32 in
    let low = dividend % 2 ^ 32 in
    let umod = if ltb 0 high then high % divisor else 0 in
    let quot = if ltb 0 high then high / divisor else high in join quot (divl umod low divisor)
