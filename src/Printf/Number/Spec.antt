-- ===== src/Printf/Number/Spec.antt =====
-- What fmt_number() puts out.
use xtf.Base.{
  ℕ, suc, ◌+◌, ◌-◌, ◌*◌, ◌^◌, ◌<◌, ◌≤◌, ◌≡◌, refl, ◌∙◌, ap, ◌≢◌, ◌⊎◌, Bool, true, false, ◌&&◌, ◌||◌,
  not, Option, some, max, List, [], ◌∷◌, ◌++◌, leb, ◌==◌, if◌then◌else◌, length, arith, Bool-cases,
  inl, inr, All, All-reverse, length-reverse, length-append,
}
use mathlib.Core.List.{reverse}
use native.Mathlib.Nat.{pow-succ'}
use xtf.Base.Int.{ℤ, pos_part, ◌-ℤ◌}
use xtf.Base.Run.{ok}
use xtf.Printf.Out.{Out, emit}
use xtf.Printf.Number.{
  Flags, digit, tmp_digits, sign, alternate_width, is_minus_one, fmt_number, put_number,
}
use xtf.Printf.Number.Text.{layout, put_number-emit, prefix_text, alternate_text}
use xtf.Printf.Number.Digits.{IsTmp, tmp_digits-IsTmp, IsDigit, read_number, digit_value}

-- the sign that is shown, if any
unfoldable pub sign_text : Flags → ℕ → List ℕ
sign_text flags val =
    if not flags.signed
    then []
    else if leb (2 ^ 63) val
    then b'-' ∷ []
    else if flags.plus
    then b'+' ∷ []
    else if flags.space
    then b' ' ∷ []
    else []

-- the absolute value of the bit pattern `val`
unfoldable pub magnitude : Flags → ℕ → ℕ
magnitude flags val = if flags.signed && leb (2 ^ 63) val then 2 ^ 64 - val else val

-- `digits` is the numeral of `u`: digits of the base in the right case that read as `u`, and no
-- more of them than needed.
pub record IsNumeral (upper : Bool) (base u : ℕ) (digits : List ℕ) : Type 0 where
  pub reads : read_number base 0 digits ≡ u
  pub chars : All (IsDigit upper base) digits
  pub one_at_least : 0 < length digits
  pub shortest : (length digits ≡ 1) ⊎ (base ^ (length digits - 1) ≤ u)

abbrev IsBase : ℕ → Type 0
IsBase base = (base ≡ 8) ⊎ ((base ≡ 10) ⊎ (base ≡ 16))

valid_base : (base : ℕ) → IsBase base → not (base == 8 || base == 10 || base == 16) ≡ false
valid_base base b = ground arith

sign_lem :
    (flags : Flags) (val : ℕ) (width : ℤ)
    → val < 2 ^ 64
    → (prefix_text (sign flags val width).0 ≡ sign_text flags val)
      × ((sign flags val width).1 ≡ magnitude flags val)
      × (pos_part (sign flags val width).2 ≡ pos_part width - length (sign_text flags val))
unfolding sign sign_text magnitude prefix_text ◌-ℤ◌
sign_lem flags val width h = ground arith

alternate_lem :
    (flags : Flags) (base : ℕ) (width : ℤ)
    → pos_part (alternate_width flags base width)
      ≡ pos_part width - length (alternate_text flags base)
unfolding alternate_width alternate_text ◌-ℤ◌
alternate_lem flags base width = ground arith

-- The text of a number with the numeral `digits`.
unfoldable pub number_text : Flags → ℕ → ℕ → ℤ → ℤ → List ℕ → List ℕ
number_text flags base val width precision digits =
    let head = sign_text flags val ++ alternate_text flags base in
    let n = length digits in
    let shown = max n (pos_part precision) in
    let zero_pad = flags.zero_pad && not (flags.left || not (is_minus_one precision)) in
    layout flags.left zero_pad head (shown - n) digits (pos_part width - length head - shown)

power_cancel : (base p u : ℕ) → 1 < base → 0 < u → base * p ≤ max 1 (u * base) → p ≤ u
power_cancel base p u lo h k = grind arith

suc-pred : (n : ℕ) → suc n - 1 ≡ n
suc-pred n = omega arith

IsNumeral-reverse :
    {upper : Bool} {base u : ℕ} (tmp : List ℕ)
    → 1 < base
    → 0 < u
    → IsTmp upper base u tmp
    → IsNumeral upper base u (reverse tmp)
unfolding read_number
IsNumeral-reverse [] lo h v = absurd (omega (arith, v.reads))
IsNumeral-reverse {upper} {base} {u} (c ∷ tmp) lo h v = record {
  reads = v.reads;
  chars = All-reverse (IsDigit upper base) (c ∷ tmp) v.chars;
  one_at_least = rw length-reverse (omega arith);
  shortest = inr (
      rw (length-reverse, suc-pred (length tmp))
        (power_cancel base (base ^ length tmp) u lo h (rw pow-succ' at v.shortest)));
}

IsNumeral-zero : (upper : Bool) (base : ℕ) → 1 < base → IsNumeral upper base 0 (b'0' ∷ [])
unfolding read_number digit_value digit
IsNumeral-zero upper base lo = record {
  reads = omega arith;
  chars = ((0, omega arith, refl), tt);
  one_at_least = omega arith;
  shortest = inl refl;
}

-- 24 entries are enough for a 64-bit number in base 8 or above.
base_room : (base u : ℕ) → IsBase base → u < 2 ^ 64 → u < base ^ 24
base_room base u (inl e) h = rw e (omega arith)
base_room base u (inr (inl e)) h = rw e (omega arith)
base_room base u (inr (inr e)) h = rw e (omega arith)

abbrev effective : Flags → ℤ → Flags
effective flags precision = record flags {
  zero_pad = flags.zero_pad && not (flags.left || not (is_minus_one precision));
}

-- The characters in `tmp`, of which those of 0 do not come from the loop.
abbrev converted : Flags → ℕ → ℕ → Option (List ℕ)
converted flags base val =
    if val == 0 then some (b'0' ∷ []) else tmp_digits 24 flags.upper base (magnitude flags val)

pub no_zeros_on_the_left : (l z m : Bool) → (l && (z && not (l || m))) ≡ false
no_zeros_on_the_left l z m = ground arith

less_twice : (n a b c : ℕ) → n - a - b - c ≡ n - (a + b) - c
less_twice n a b c = omega arith

put_number-number_text :
    (val base : ℕ) (width precision : ℤ) (flags : Flags) (tmp : List ℕ) (o : Out)
    → val < 2 ^ 64
    → let f = effective flags precision in
      let (prefix, _, w) = sign f val width in
      put_number f base prefix tmp (alternate_width f base w) precision o
      ≡ emit (number_text flags base val width precision (reverse tmp)) o
unfolding number_text sign_text alternate_text
put_number-number_text val base width precision flags tmp o lt =
    let f = effective flags precision in
    let s = sign_lem f val width lt in
    put_number-emit f base (sign f val width).0 tmp (max (length tmp) (pos_part precision))
      (alternate_width f base (sign f val width).2) precision o
      (no_zeros_on_the_left flags.left flags.zero_pad (not (is_minus_one precision))) refl
    ∙ simp (
      s.0,
      alternate_lem f base (sign f val width).2,
      s.2,
      length-reverse,
      length-append,
      less_twice,
    )

fmt_number-emit :
    (val base : ℕ) (width precision : ℤ) (flags : Flags) (tmp : List ℕ) (o : Out)
    → val < 2 ^ 64
    → IsBase base
    → converted (effective flags precision) base val ≡ some tmp
    → fmt_number val base width precision flags o
      ≡ ok (emit (number_text flags base val width precision (reverse tmp)) o)
unfolding fmt_number
fmt_number-emit val base width precision flags tmp o lt b e =
    let f = effective flags precision in
    let s = sign_lem f val width lt in
    rw (valid_base base b, s.1, e)
      (ap ok (put_number-number_text val base width precision flags tmp o lt))

magnitude_bounds :
    (flags : Flags) (val : ℕ)
    → val < 2 ^ 64
    → (magnitude flags val < 2 ^ 64) × (val ≢ 0 → 0 < magnitude flags val)
unfolding magnitude
magnitude_bounds flags val h = ground arith

magnitude-zero : (flags : Flags) (val : ℕ) → (val == 0) ≡ true → magnitude flags val ≡ 0
unfolding magnitude
magnitude-zero flags val h = ground arith

converted-IsNumeral :
    (flags : Flags) (base val : ℕ)
    → val < 2 ^ 64
    → IsBase base
    → (tmp : List ℕ) × (converted flags base val ≡ some tmp)
      × IsNumeral flags.upper base (magnitude flags val) (reverse tmp)
converted-IsNumeral flags base val h b = elim (Bool-cases (val == 0)) [
  | inl e ↦ (
    b'0' ∷ [],
    rw e,
    rw (magnitude-zero flags val e) (IsNumeral-zero flags.upper base (ground arith)),
  )
  | inr ne ↦
      let (small, positive) = magnitude_bounds flags val h in
      let u = magnitude flags val in
      let (tmp, e, v, l) =
        tmp_digits-IsTmp 24 flags.upper base u (ground arith) (ground arith)
          (base_room base u b small) in
      (tmp, rw (ne, e), IsNumeral-reverse tmp (ground arith) (positive (ground arith)) v)
]

-- For a value of 64 bits and a base of 8, 10 or 16 fmt_number() returns, whatever the output buffer, and puts out one
-- and the same text: the absolute value of `val` as a numeral in that base with the sign, the
-- alternate prefix and the zeros and spaces that the flags, the precision and the width ask for.
-- `tmp` is never overrun.
pub fmt_number_lem :
    (val base : ℕ) (width precision : ℤ) (flags : Flags)
    → val < 2 ^ 64
    → IsBase base
    → (digits : List ℕ) × IsNumeral flags.upper base (magnitude flags val) digits
      × ((o : Out)
          → fmt_number val base width precision flags o
            ≡ ok (emit (number_text flags base val width precision digits) o))
unfolding magnitude
fmt_number_lem val base width precision flags h b =
    let (tmp, e, v) = converted-IsNumeral (effective flags precision) base val h b in
    (reverse tmp, v, λ o. fmt_number-emit val base width precision flags tmp o h b e)
