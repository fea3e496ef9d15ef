-- ===== src/Decode.antt =====
-- arch/x86/decode.c, and snprintf() of common/libc/stdio.c as it calls it: the text of an exception,
-- which the conversion '%pe' puts out.
pub mod Hook
pub mod Text
pub mod Code
pub mod Exinfo
use Prim.Native.String.{String}
use xtf.Base.{
  ℕ, zero, suc, ◌+◌, ◌-◌, ◌/◌, ◌%◌, ◌^◌, Bool, true, false, ◌&&◌, ◌||◌, ◌==◌, leb, ltb,
  if◌then◌else◌, List, [], ◌∷◌, ◌++◌, Option, none, some, get_or, length, replicate,
}
use xtf.Base.Int.{ℤ, pos, negsuc}
use xtf.Base.Text.{codes}
use xtf.Base.Run.{Run, ok, ◌>>=◌}
use xtf.Printf.Number.{Flags, no_flags}
use xtf.Printf.Writer.{lift, return, ◌>>=◌ as ◌then_write◌}
use xtf.Printf.Str.{fmt_string}
use xtf.Printf.Pointer.{ArchHook, advance}
use xtf.Printf.Parse.{Arg, int, str}
use xtf.Printf.Format.{vsnprintf_internal}

-- The format strings of this file have no '%p', so that this hook stands in for the recursion
-- through arch_fmt_pointer() and is never called.
abbrev pub no_hook : ArchHook
no_hook fmt arg width precision flags = return none

-- `snprintf(buf, bufsz, fmt, ...)`: the bytes in `buf` afterwards
unfoldable pub snprintf : List ℕ → ℕ → String → List Arg → Run (List ℕ)
snprintf buf bufsz fmt args =
    vsnprintf_internal no_hook buf bufsz (codes fmt) args no_flags >>= λ (_, buf'). ok buf'

-- by the value of the enumerator: X86_VENDOR_INTEL is 1 and X86_VENDOR_AMD is 2
unfoldable pub x86_vendor_name : (v : ℕ) → List ℕ
x86_vendor_name v =
    if v == 1 then codes "Intel" else if v == 2 then codes "AMD" else codes "Unknown"

-- `ec & (1u << n)`
abbrev pub bit : ℕ → ℕ → Bool
bit ec n = ec / 2 ^ n % 2 == 1

abbrev names : List (List ℕ)
names =
    codes "#DE"
    ∷ codes "#DB"
    ∷ codes "#NMI"
    ∷ codes "#BP"
    ∷ codes "#OF"
    ∷ codes "#BR"
    ∷ codes "#UD"
    ∷ codes "#NM"
    ∷ codes "#DF"
    ∷ codes "#CSO"
    ∷ codes "#TS"
    ∷ codes "#NP"
    ∷ codes "#SS"
    ∷ codes "#GP"
    ∷ codes "#PF"
    ∷ codes "#SPV"
    ∷ codes "#MF"
    ∷ codes "#AC"
    ∷ codes "#MC"
    ∷ codes "#XM"
    ∷ codes "#VE"
    ∷ []

-- `names[exc]`, for the vectors below 21
unfoldable pub x86_exc_short_name : ℕ → List ℕ
x86_exc_short_name exc = get_or names exc (codes "??")

-- a literal or a filled buffer, as an argument
abbrev text : List ℕ → Arg
text s = str (some s)

-- `X86_EXC_TS`, `_NP`, `_SS`, `_GP` and `_AC`
abbrev has_selector : ℕ → Bool
has_selector ev = ev == 10 || ev == 11 || ev == 12 || ev == 13 || ev == 17

abbrev choose : ℕ → ℕ → ℕ → ℕ → Arg
choose ec n c d = int (if bit ec n then c else d)

unfoldable pub x86_exc_decode_ec : List ℕ → ℕ → ℕ → ℕ → Run (List ℕ)
x86_exc_decode_ec buf bufsz ev ec =
    if ev == 14
    then snprintf buf bufsz "%c%c%c%c%c%c" (
        choose ec 5 b'K' b'-'
        ∷ choose ec 4 b'I' b'd'
        ∷ choose ec 3 b'R' b'-'
        ∷ choose ec 2 b'U' b's'
        ∷ choose ec 1 b'W' b'r'
        ∷ choose ec 0 b'P' b'-'
        ∷ [])
    else if has_selector ev && ltb 0 ec
    then snprintf buf bufsz "%cDT[%u]%s" (
        int (if bit ec 1 then b'I' else if bit ec 2 then b'L' else b'G')
        ∷ int (ec / 8)
        ∷ text (if bit ec 0 then codes ",EXT" ++ 0 ∷ [] else 0 ∷ [])
        ∷ [])
    else snprintf buf bufsz "%04x" (int ec ∷ [])

-- exinfo_vec() and exinfo_ec()
unfoldable pub exinfo_vec : ℕ → ℕ
exinfo_vec info = info / 2 ^ 16 % 256

unfoldable pub exinfo_ec : ℕ → ℕ
exinfo_ec info = info % 2 ^ 16

-- `(1u << vec) & X86_EXC_HAVE_EC`, for vectors below 32
abbrev have_ec : ℕ → Bool
have_ec vec = vec == 8 || (vec == 14 || has_selector vec)

-- A local buffer of 16 bytes, which C leaves uninitialised.
abbrev fresh : List ℕ
fresh = replicate 16 0

unfoldable pub x86_decode_exinfo : List ℕ → ℕ → ℕ → Run (List ℕ)
x86_decode_exinfo buf bufsz info =
    let vec = exinfo_vec info in
    let ec = exinfo_ec info in
    let name = text (x86_exc_short_name vec ++ 0 ∷ []) in
    let with_ec = x86_exc_decode_ec fresh 16 vec ec >>= λ ecstr.
    snprintf buf bufsz "%s[%s]" (name ∷ text ecstr ∷ []) in
    if info == 0
    then snprintf buf bufsz "nothing" []
    else if ltb 0 ec || have_ec vec
    then with_ec
    else snprintf buf bufsz "%s" (name ∷ [])

unfoldable pub arch_fmt_pointer : ArchHook
arch_fmt_pointer fmt arg width precision flags =
    let exception = lift (x86_decode_exinfo fresh 16 (arg % 2 ^ 32)) then_write λ buf.
    fmt_string (some buf) width precision flags then_write λ _. return (some (advance fmt)) in
    if get_or fmt 1 0 == b'e' then exception else return none
