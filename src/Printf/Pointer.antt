-- ===== src/Printf/Pointer.antt =====
-- pointer() of common/libc/vsnprintf.c: the conversion 'p'. The format string is the list of its
-- characters from `*fmt_ptr` on, without the NUL; the functions return what is left of it.
use xtf.Base.{
  ℕ, zero, suc, Bool, true, false, ◌==◌, ltb, if◌then◌else◌, List, [], ◌∷◌, Option, none, some,
  get_or,
}
use xtf.Base.Int.{ℤ, pos, negsuc}
use xtf.Printf.Number.{Flags, no_flags, fmt_number}
use xtf.Printf.Writer.{M, ◌>>=◌, ◌>>◌, return, undefined, put_char, writing}

-- `++*fmt_ptr`; the format string does not end here
abbrev pub advance : List ℕ → List ℕ
advance [] = []
advance (c ∷ fmt) = fmt

-- arch_fmt_pointer(): `none` is `false`, `some` what is left of the format string
abbrev pub ArchHook : Type 0
ArchHook = List ℕ → ℕ → ℤ → ℤ → Flags → M (Option (List ℕ))

abbrev pub hex_flags : Flags
hex_flags = record no_flags { zero_pad = true }

-- The `for` loop over `hex_buffer[i]` with `count + 1` rounds left. The separator 0 is none.
unfoldable pub put_hex : ℕ → List ℕ → ℕ → M (Unit {0})
put_hex sep [] count = undefined
put_hex sep (b ∷ buffer) zero = writing (fmt_number b 16 (pos 2) (negsuc 0) hex_flags)
put_hex sep (b ∷ buffer) (suc count) = do
  writing (fmt_number b 16 (pos 2) (negsuc 0) hex_flags)
  (if sep == 0 then return tt else put_char sep)
  put_hex sep buffer count

-- `sep`, and whether a separator modifier is consumed
unfoldable pub separator : ℕ → ℕ × Bool
separator c =
    if c == b'C'
    then (b':', true)
    else if c == b'D'
    then (b'-', true)
    else if c == b'N'
    then (0, true)
    else (b' ', false)

-- `case 'h'`
unfoldable pub hex_string : List ℕ → List ℕ → ℤ → M (List ℕ)
hex_string fmt buffer width =
    let after = advance fmt in
    let (sep, consumed) = separator (get_or fmt 2 0) in
    let after' = if consumed then advance after else after in
    elim width [
      | pos (suc w) ↦ (do put_hex sep buffer (if ltb 128 (suc w) then 127 else w); return after')
      | _ ↦ return after
    ]

-- The fall back to a plain hex integer, of `2 * sizeof(void *)` digits by default.
unfoldable pub hex_address : ℕ → ℤ → ℤ → Flags → M (Unit {0})
hex_address arg (negsuc zero) precision flags =
    writing (fmt_number arg 16 (pos 16) precision (record flags { zero_pad = true }))
hex_address arg width precision flags = writing (fmt_number arg 16 width precision flags)

-- what pointer() does behind arch_fmt_pointer(), by its result
unfoldable pub after_arch : List ℕ → ℕ → ℤ → ℤ → Flags → Option (List ℕ) → M (List ℕ)
after_arch fmt arg width precision flags (some after) = return after
after_arch fmt arg width precision flags none = do hex_address arg width precision flags; return fmt

-- `arg` is the address, `buffer` the bytes there
unfoldable pub pointer : ArchHook → List ℕ → ℕ → List ℕ → ℤ → ℤ → Flags → M (List ℕ)
pointer arch fmt arg buffer width precision flags =
    let other = arch fmt arg width precision flags >>= after_arch fmt arg width precision flags in
    if get_or fmt 1 0 == b'h' then hex_string fmt buffer width else other
