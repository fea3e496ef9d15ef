-- ===== src/Printf/Parse.antt =====
-- How vsnprintf_internal() of common/libc/vsnprintf.c reads arguments and conversion specifications. The format string is the list of its characters
-- from `fmt` on, without the NUL, and `int` and `long` have 32 and 64 bits.
use xtf.Base.{
  ℕ, ◌+◌, ◌-◌, ◌*◌, ◌%◌, ◌^◌, Bool, true, ◌&&◌, ◌==◌, leb, ltb, if◌then◌else◌, List, [], ◌∷◌,
  Option, none, some, get_or,
}
use xtf.Base.Int.{ℤ, pos, negsuc}
use xtf.Base.Run.{Run, ok, fault, ◌>>=◌}
use xtf.Printf.Number.{Flags}
use xtf.Printf.Pointer.{advance}

-- What a caller passes for `...`: an `int` or what is promoted to it; a type of 64 bits; the bytes
-- at a `char *`, `none` for NULL; an address with the bytes there.
pub data Arg : Type 0 where
  int : ℕ → Arg
  long : ℕ → Arg
  str : Option (List ℕ) → Arg
  ptr : ℕ → List ℕ → Arg

-- va_arg(): another type than that of the argument is undefined.
unfoldable pub int_arg : List Arg → Run (ℕ × List Arg)
int_arg (int v ∷ args) = ok (v % 2 ^ 32, args)
int_arg args = fault

unfoldable pub long_arg : List Arg → Run (ℕ × List Arg)
long_arg (long v ∷ args) = ok (v % 2 ^ 64, args)
long_arg args = fault

unfoldable pub str_arg : List Arg → Run (Option (List ℕ) × List Arg)
str_arg (str s ∷ args) = ok (s, args)
str_arg args = fault

unfoldable pub ptr_arg : List Arg → Run ((ℕ × List ℕ) × List Arg)
ptr_arg (ptr a bytes ∷ args) = ok ((a % 2 ^ 64, bytes), args)
ptr_arg args = fault

unfoldable pub isdigit : ℕ → Bool
isdigit c = leb b'0' c && leb c b'9'

-- `int` overflow is undefined.
unfoldable pub fmt_int : List ℕ → ℕ → Run (ℤ × List ℕ)
fmt_int [] res = ok (pos res, [])
fmt_int (c ∷ fmt) res =
    let res' = res * 10 + (c - b'0') in
    let rest = if ltb res' (2 ^ 31) then fmt_int fmt res' else fault in
    if isdigit c then rest else ok (pos res, c ∷ fmt)

-- the flag that a character sets
unfoldable pub flag : ℕ → Flags → Option Flags
flag c flags =
    if c == b'-'
    then some (record flags { left = true })
    else if c == b'+'
    then some (record flags { plus = true })
    else if c == b' '
    then some (record flags { space = true })
    else if c == b'#'
    then some (record flags { alternate = true })
    else if c == b'0'
    then some (record flags { zero_pad = true })
    else none

-- the loop at `next_flag`
unfoldable pub parse_flags : List ℕ → Flags → Flags × List ℕ
parse_flags [] flags = (flags, [])
parse_flags (c ∷ fmt) flags = elim (flag c flags) [
  | some flags' ↦ parse_flags fmt flags'
  | none ↦ (flags, c ∷ fmt)
]

abbrev pub signed32 : ℕ → ℤ
signed32 v = if ltb v (2 ^ 31) then pos v else negsuc (2 ^ 32 - v - 1)

abbrev pub starts : ℕ → List ℕ → Bool
starts c fmt = get_or fmt 0 0 == c

-- A negative width is LEFT and its absolute value, which INT_MIN has none of.
unfoldable pub absolute_width : ℤ → Flags → Run (ℤ × Flags)
absolute_width (pos w) flags = ok (pos w, flags)
absolute_width (negsuc w) flags =
    if ltb (w + 1) (2 ^ 31) then ok (pos (w + 1), record flags { left = true }) else fault

unfoldable pub parse_width : List ℕ → List Arg → Flags → Run ((ℤ × Flags) × List ℕ × List Arg)
parse_width fmt args flags =
    let star = int_arg args >>= λ (v, args').
    absolute_width (signed32 v) flags >>= λ wf. ok (wf, advance fmt, args') in
    let digits =
      fmt_int fmt 0 >>= λ (w, fmt'). absolute_width w flags >>= λ wf. ok (wf, fmt', args) in
    if starts b'*' fmt
    then star
    else if isdigit (get_or fmt 0 0)
    then digits
    else ok ((negsuc 0, flags), fmt, args)

abbrev pub clamp_precision : ℤ → ℤ
clamp_precision (pos p) = pos p
clamp_precision (negsuc p) = negsuc 0

unfoldable pub parse_precision : List ℕ → List Arg → Run (ℤ × List ℕ × List Arg)
parse_precision fmt args =
    let after = advance fmt in
    let star =
      int_arg args >>= λ (v, args'). ok (clamp_precision (signed32 v), advance after, args') in
    let digits = fmt_int after 0 >>= λ (p, fmt'). ok (clamp_precision p, fmt', args) in
    if starts b'.' fmt
    then if starts b'*' after
      then star
      else if isdigit (get_or after 0 0)
      then digits
      else ok (negsuc 0, after, args)
    else ok (negsuc 0, fmt, args)

-- `length_mod`; the constructors are 'i', 'h', 'l', 'z', 'H' and 'L'
pub data LengthMod : Type 0 where
  plain short long size char long_long : LengthMod

unfoldable pub parse_length : List ℕ → LengthMod × List ℕ
parse_length fmt =
    let (length_mod, fmt) : LengthMod × List ℕ =
      if starts b'h' fmt
      then (LengthMod.short, advance fmt)
      else if starts b'l' fmt
      then (LengthMod.long, advance fmt)
      else if starts b'z' fmt
      then (LengthMod.size, advance fmt)
      else (LengthMod.plain, fmt) in
    if starts b'h' fmt
    then (LengthMod.char, advance fmt)
    else if starts b'l' fmt
    then (LengthMod.long_long, advance fmt)
    else (length_mod, fmt)
