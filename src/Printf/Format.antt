-- ===== src/Printf/Format.antt =====
-- vsnprintf_internal() of common/libc/vsnprintf.c, from a conversion specification on.
use xtf.Base.{
  ℕ, zero, suc, ◌+◌, ◌-◌, ◌%◌, ◌^◌, Bool, true, false, ◌&&◌, ◌||◌, ◌==◌, leb, ltb, get_or,
  if◌then◌else◌, List, [], ◌∷◌, Option, none, some, length,
}
use xtf.Base.Int.{ℤ, pos, negsuc, narrow}
use xtf.Base.Run.{Run, ok, fault, out_of_fuel, ◌>>=◌ as ◌then_run◌}
use xtf.Printf.Out.{Out, store}
use xtf.Printf.Number.{Flags, fmt_number}
use xtf.Printf.Writer.{M, ◌>>=◌, ◌>>◌, return, lift, put_char, put_if, writing}
use xtf.Printf.Str.{fmt_string}
use xtf.Printf.Pointer.{ArchHook, pointer, advance}
use xtf.Printf.Parse.{
  Arg, LengthMod, int_arg, long_arg, str_arg, ptr_arg, parse_flags, parse_width, parse_precision,
  parse_length,
}

-- What the loop keeps from one round to the next: `fmt`, before its `++fmt`, and `args`.
abbrev pub Rest : Type 0
Rest = List ℕ × List Arg

-- `while ( --width > 0 ) PUT(' ')`, which returns `width`
unfoldable pub put_while_pre : ℤ → M ℤ
put_while_pre (pos (suc (suc w))) = put_char b' ' >> put_while_pre (pos (suc w))
put_while_pre (pos (suc zero)) = return (pos 0)
put_while_pre (pos zero) = return (negsuc 0)
put_while_pre (negsuc w) = return (negsuc (suc w))

-- from the label `put_char` on
unfoldable pub put_character : ℕ → ℤ → Flags → M (Unit {0})
put_character c width flags = do
  put_if (flags.lf_to_crlf && c == b'\n') b'\r'
  put_char c
  _ ← put_while_pre width
  return tt

-- `(signed T)` or `(unsigned T)` of a type of `w` bits, as a pattern of 64 bits
unfoldable pub cast : Bool → ℕ → ℕ → ℕ
cast signed w v =
    let low = v % 2 ^ w in if signed && leb (2 ^ (w - 1)) low then low + (2 ^ 64 - 2 ^ w) else low

-- `Pull the arg and cast correctly.`
unfoldable pub number_arg : LengthMod → Bool → List Arg → Run (ℕ × List Arg)
number_arg LengthMod.char signed args =
    int_arg args then_run λ (v, rest). ok (cast signed 8 v, rest)
number_arg LengthMod.short signed args =
    int_arg args then_run λ (v, rest). ok (cast signed 16 v, rest)
number_arg LengthMod.plain signed args =
    int_arg args then_run λ (v, rest). ok (cast signed 32 v, rest)
number_arg LengthMod.size signed args = long_arg args
number_arg LengthMod.long signed args =
    long_arg args then_run λ (v, rest). ok (cast signed 64 v, rest)
number_arg LengthMod.long_long signed args =
    long_arg args then_run λ (v, rest). ok (cast signed 64 v, rest)

-- the base and the flags of a conversion of a number
unfoldable pub number_conversion : ℕ → Flags → Option (ℕ × Flags)
number_conversion c flags =
    if c == b'o'
    then some (8, flags)
    else if c == b'd' || c == b'i'
    then some (10, record flags { signed = true })
    else if c == b'u'
    then some (10, flags)
    else if c == b'X'
    then some (16, record flags { upper = true })
    else if c == b'x'
    then some (16, flags)
    else none

-- what stands in a conversion specification in front of its last character
pub record Directive : Type 0 where
  pub flags : Flags
  pub width : ℤ
  pub precision : ℤ
  pub length_mod : LengthMod

unfoldable pub convert_number : Directive → ℕ × Flags → List ℕ → List Arg → M Rest
convert_number d (base, flags) fmt args = do
  (num, args) ← lift (number_arg d.length_mod flags.signed args)
  writing (fmt_number num base d.width d.precision flags)
  return (advance fmt, args)

unfoldable pub convert_char : Directive → List ℕ → List Arg → M Rest
convert_char d fmt args = do
  (c, args) ← lift (int_arg args)
  width ← (if d.flags.left then return d.width else put_while_pre d.width)
  put_character (c % 256) width d.flags
  return (advance fmt, args)

unfoldable pub convert_string : Directive → List ℕ → List Arg → M Rest
convert_string d fmt args = do
  (s, args) ← lift (str_arg args)
  fmt_string s d.width d.precision d.flags
  return (advance fmt, args)

unfoldable pub convert_pointer : ArchHook → Directive → List ℕ → List Arg → M Rest
convert_pointer arch d fmt args = do
  (a, args) ← lift (ptr_arg args)
  fmt ← pointer arch fmt a.0 a.1 d.width d.precision d.flags
  return (advance fmt, args)

-- A number, or what is not recognised: that is put out as it stands, for the loop goes on behind its
-- '%', at `spec`.
unfoldable pub or_literal : List ℕ → Directive → List ℕ → List Arg → Option (ℕ × Flags) → M Rest
or_literal spec d fmt args (some conversion) = convert_number d conversion fmt args
or_literal spec d fmt args none = do put_char b'%'; return (spec, args)

-- `Process the conversion modifier.`
unfoldable pub convert : ArchHook → List ℕ → Directive → List ℕ → List Arg → M Rest
convert arch spec d fmt args =
    let c = get_or fmt 0 0 in
    if c == b'%'
    then put_char b'%' >> return (advance fmt, args)
    else if c == b'c'
    then convert_char d fmt args
    else if c == b's'
    then convert_string d fmt args
    else if c == b'p'
    then convert_pointer arch d fmt args
    else or_literal spec d fmt args (number_conversion c d.flags)

-- one round of the loop at a '%', with what follows that in `spec`
unfoldable pub directive : ArchHook → Flags → List ℕ → List Arg → M Rest
directive arch caller_flags spec args = do
  let parsed = parse_flags spec caller_flags
  ((width, flags), fmt, args) ← lift (parse_width parsed.1 args parsed.0)
  (precision, fmt, args) ← lift (parse_precision fmt args)
  let sized = parse_length fmt
  let d : Directive = record {
    flags = flags;
    width = width;
    precision = precision;
    length_mod = sized.0;
  }
  convert arch spec d sized.1 args

-- the `for` loop over the format string
unfoldable pub format_loop : ArchHook → Flags → ℕ → List ℕ → List Arg → M (Unit {0})
format_loop arch caller_flags fuel [] args = return tt
format_loop arch caller_flags zero (c ∷ fmt) args = λ o. out_of_fuel
format_loop arch caller_flags (suc fuel) (c ∷ fmt) args =
    let at_percent = directive arch caller_flags fmt args >>= λ rest.
    format_loop arch caller_flags fuel rest.0 rest.1 in
    let regular =
      put_character c (negsuc 0) caller_flags >> format_loop arch caller_flags fuel fmt args in
    if c == b'%' then at_percent else regular

-- the NUL at the end of the output, or over its last byte in the buffer
unfoldable pub terminate : Out → Out
terminate o =
    if ltb o.str o.end then store o.str 0 o else if ltb 0 o.end then store (o.end - 1) 0 o else o

-- the memory from `buf` on beside `str - buf`, which becomes an int; a write outside of it is undefined
abbrev pub returned_by : ℕ → Out → Run (ℤ × List ℕ)
returned_by len o = if o.overrun then fault else ok (narrow len, o.mem)

abbrev pub finish : Run (Unit {0} × Out) → Run (ℤ × List ℕ)
finish (ok (_, o)) = returned_by o.str (terminate o)
finish fault = fault
finish out_of_fuel = out_of_fuel

unfoldable pub vsnprintf_internal :
    ArchHook → List ℕ → ℕ → List ℕ → List Arg → Flags → Run (ℤ × List ℕ)
vsnprintf_internal arch buf size fmt args caller_flags =
    let start : Out = record { mem = buf; str = 0; end = size; overrun = false } in
    finish (format_loop arch caller_flags (length fmt) fmt args start)
