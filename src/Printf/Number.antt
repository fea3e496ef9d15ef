-- ===== src/Printf/Number.antt =====
-- fmt_number() of common/libc/vsnprintf.c. A `long long` is its bit pattern, a number below 2^64.
use xtf.Base.{
  ℕ, zero, suc, ◌+◌, ◌-◌, ◌%◌, ◌^◌, ◌≡◌, Bool, true, false, ◌&&◌, ◌||◌, not, Option, none, some,
  List, [], ◌∷◌, leb, ltb, ◌==◌, if◌then◌else◌, length,
}
use xtf.Base.Int.{ℤ, pos, negsuc, ◌-ℤ◌, ltb_ℤ}
use xtf.Base.Run.{Run, ok, fault, ◌>>=◌, or_fault}
use xtf.Printf.Out.{Out, put, put_while_pos}
use xtf.Div.{divmod64}
pub mod Text
pub mod Digits
pub mod Spec

-- the bits of `flags`
pub record Flags : Type 0 where
  pub left : Bool
  pub plus : Bool
  pub space : Bool
  pub alternate : Bool
  pub zero_pad : Bool
  pub upper : Bool
  pub signed : Bool
  pub lf_to_crlf : Bool

abbrev pub no_flags : Flags
no_flags = record {
  left = false;
  plus = false;
  space = false;
  alternate = false;
  zero_pad = false;
  upper = false;
  signed = false;
  lf_to_crlf = false;
}

-- `digits[d]`
unfoldable pub digit : Bool → ℕ → ℕ
digit upper d = if ltb d 10 then b'0' + d else (if upper then b'A' else b'a') + (d - 10)

-- `while ( uval ) tmp[i++] = digits[divmod64(&uval, base)]` with `room` unused entries of `tmp`
-- left. A write past the end of `tmp` is `none`; the list starts at `tmp[0]`.
unfoldable pub tmp_digits : (room : ℕ) → Bool → ℕ → ℕ → Option (List ℕ)
unfolding divmod64 digit
tmp_digits zero upper base uval = if uval == 0 then some [] else none
tmp_digits (suc room) upper base uval =
    let (rem, uval') = divmod64 uval base in
    let rest = tmp_digits room upper base uval' in
    if uval == 0
    then some []
    else elim rest [ none ↦ none | some tmp ↦ some (digit upper rem ∷ tmp) ]

-- `prefix`, `uval` and `width` behind the treatment of the sign
unfoldable pub sign : Flags → ℕ → ℤ → ℕ × ℕ × ℤ
unfolding ◌-ℤ◌
sign flags val width =
    if flags.signed
    then if leb (2 ^ 63) val
      then (b'-', (2 ^ 64 - val) % 2 ^ 64, width -ℤ pos 1)
      else if flags.plus
      then (b'+', val, width -ℤ pos 1)
      else if flags.space
      then (b' ', val, width -ℤ pos 1)
      else (0, val, width)
    else (0, val, width)

-- the width that the '0x' or '0' of the alternate representation takes
unfoldable pub alternate_width : Flags → ℕ → ℤ → ℤ
unfolding ◌-ℤ◌
alternate_width flags base width =
    if flags.alternate
    then if base == 16 then width -ℤ pos 2 else if base == 8 then width -ℤ pos 1 else width
    else width

unfoldable pub put_alternate : Flags → ℕ → Out → Out
unfolding put
put_alternate flags base o =
    if flags.alternate
    then if base == 16 then put b'x' (put b'0' o) else if base == 8 then put b'0' o else o
    else o

-- `while ( i < precision-- ) PUT('0')`
unfoldable pub put_zeros : ℕ → ℤ → Out → Out
unfolding put
put_zeros i (pos (suc p)) o = if ltb i (suc p) then put_zeros i (pos p) (put b'0' o) else o
put_zeros i p o = o

-- `while ( i-- ) PUT(tmp[i])`
unfoldable pub put_tmp : List ℕ → Out → Out
unfolding put
put_tmp [] o = o
put_tmp (c ∷ tmp) o = put c (put_tmp tmp o)

-- `if ( prefix ) PUT(prefix)`
unfoldable pub put_prefix : ℕ → Out → Out
unfolding put
put_prefix prefix o = if prefix == 0 then o else put prefix o

-- the output behind the first padding, which left `width`
unfoldable pub put_fields : Flags → ℕ → ℕ → List ℕ → ℤ → Bool → ℤ × Out → Out
put_fields flags base prefix tmp precision zero_pad (width, o) =
    let o = put_alternate flags base (put_prefix prefix o) in
    let padded : ℤ × Out = if zero_pad then put_while_pos width b'0' o else (width, o) in
    let o = put_tmp tmp (put_zeros (length tmp) precision padded.1) in
    (put_while_pos padded.0 b' ' o).1

-- the output, once `tmp` holds the digits
unfoldable pub put_number : Flags → ℕ → ℕ → List ℕ → ℤ → ℤ → Out → Out
put_number flags base prefix tmp width precision o =
    let i = length tmp in
    let precision : ℤ = if ltb_ℤ precision (pos i) then pos i else precision in
    let width = width -ℤ precision in
    let padded : ℤ × Out =
      if flags.left || flags.zero_pad then (width, o) else put_while_pos width b' ' o in
    put_fields flags base prefix tmp precision flags.zero_pad padded

abbrev pub is_minus_one : ℤ → Bool
is_minus_one (negsuc zero) = true
is_minus_one w = false

unfoldable pub fmt_number : ℕ → ℕ → ℤ → ℤ → Flags → Out → Run Out
fmt_number val base width precision flags o =
    let zero_pad = flags.zero_pad && not (flags.left || not (is_minus_one precision)) in
    let flags = record flags { zero_pad = zero_pad } in
    let (prefix, uval, width) = sign flags val width in
    let width = alternate_width flags base width in
    let tmp : Option (List ℕ) =
      if val == 0 then some (b'0' ∷ []) else tmp_digits 24 flags.upper base uval in
    if not (base == 8 || base == 10 || base == 16)
    then ok o
    else or_fault tmp >>= λ tmp. ok (put_number flags base prefix tmp width precision o)
