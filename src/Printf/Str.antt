-- ===== src/Printf/Str.antt =====
-- fmt_string() of common/libc/vsnprintf.c, and the loops that it shares with the conversion 'c'.
pub mod Text
use xtf.Base.{
  ℕ, zero, suc, ◌+◌, ◌-◌, ◌≡◌, ◌≢◌, refl, Bool, true, false, ◌&&◌, not, ◌==◌, ltb, if◌then◌else◌,
  List, [], ◌∷◌, ◌++◌, Option, none, some, length, take, replicate, map,
}
use xtf.Base.Int.{ℤ, pos, negsuc, ltb_ℤ, pos_part}
use xtf.Base.Run.{Run, ok, fault, out_of_fuel}
use xtf.CString.{strlen, strnlen}
use xtf.Printf.Number.{Flags}
use xtf.Printf.Writer.{M, ◌>>=◌, ◌>>◌, return, undefined, lift, put_char, put_if}

-- `while ( len < width-- ) PUT(' ')`, which returns `width`
unfoldable pub put_while_less : ℕ → ℤ → M ℤ
put_while_less len (pos (suc w)) =
    let rest = put_char b' ' >> put_while_less len (pos w) in
    if ltb len (suc w) then rest else return (pos w)
put_while_less len (pos zero) = return (negsuc 0)
put_while_less len (negsuc w) = return (negsuc (suc w))

-- The `for` loop over `val[i]`, at `val` the rest of the string and `len` rounds left.
unfoldable pub put_text : Bool → List ℕ → ℕ → M (Unit {0})
put_text lf_to_crlf val zero = return tt
put_text lf_to_crlf [] (suc len) = undefined
put_text lf_to_crlf (c ∷ val) (suc len) = do
  put_if (lf_to_crlf && c == b'\n') b'\r'
  put_char c
  put_text lf_to_crlf val len

abbrev pub null_text : List ℕ
null_text = b'(' ∷ b'N' ∷ b'U' ∷ b'L' ∷ b'L' ∷ b')' ∷ 0 ∷ []

-- `val` is `none` for a null pointer
abbrev pub text_of : Option (List ℕ) → List ℕ
text_of none = null_text
text_of (some s) = s

-- `len`, for a string of fewer than 2 ^ 31 bytes
unfoldable pub text_length : List ℕ → ℤ → Run ℕ
text_length val (pos precision) = strnlen val precision
text_length val (negsuc precision) = strlen val

unfoldable pub fmt_string : Option (List ℕ) → ℤ → ℤ → Flags → M (Unit {0})
fmt_string val width precision flags = do
  len ← lift (text_length (text_of val) precision)
  width ← (if flags.left then return width else put_while_less len width)
  put_text flags.lf_to_crlf (text_of val) len
  _ ← put_while_less len width
  return tt
