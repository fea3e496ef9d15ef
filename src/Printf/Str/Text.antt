-- ===== src/Printf/Str/Text.antt =====
-- The text that fmt_string() puts out.
use xtf.Base.{
  ℕ, zero, suc, ◌-◌, ◌≤◌, ◌≡◌, refl, ◌∙◌, ap, Bool, true, false, ◌&&◌, ◌==◌, ltb, if◌then◌else◌,
  List, [], ◌∷◌, ◌++◌, some, length, take, replicate, arith, Bool-cases, inl, inr, length-take,
}
use native.Mathlib.Nat.{zero-sub}
use xtf.Base.Int.{ℤ, pos, negsuc, pos_part}
use xtf.Base.Run.{ok}
use xtf.CString.Length.{IsText, strlen_lem, strnlen_lem}
use xtf.Printf.Number.{Flags}
use xtf.Printf.Out.{Out, put, emit, emit-append}
use xtf.Printf.Writer.{lift}
use xtf.Printf.Str.{put_while_less, put_text, text_length, fmt_string}

-- every LF behind a CR, if that is asked for
unfoldable pub expand_lf : Bool → List ℕ → List ℕ
expand_lf lf_to_crlf [] = []
expand_lf lf_to_crlf (c ∷ s) =
    if lf_to_crlf && c == b'\n'
    then b'\r' ∷ c ∷ expand_lf lf_to_crlf s
    else c ∷ expand_lf lf_to_crlf s

-- the part of a string that the precision lets through; -1 is none
unfoldable pub shown : List ℕ → ℤ → List ℕ
shown s (pos p) = take p s
shown s (negsuc p) = s

-- A string in a field of `width` columns, counted before LFs are expanded.
unfoldable pub string_text : Flags → ℤ → List ℕ → List ℕ
string_text flags width s =
    let fill = replicate (pos_part width - length s) b' ' in
    let body = expand_lf flags.lf_to_crlf s in if flags.left then body ++ fill else fill ++ body

less : (len w : ℕ) → ltb len (suc w) ≡ true → suc w - len ≡ suc (w - len)
less len w h = ground arith

not_less : (len w : ℕ) → ltb len (suc w) ≡ false → (suc w - len ≡ 0) × (w - len ≡ 0)
not_less len w h = ground arith

put_while_less-emit :
    (len : ℕ) (w : ℤ) (o : Out)
    → (w' : ℤ) × (put_while_less len w o ≡ ok (w', emit (replicate (pos_part w - len) b' ') o))
      × (pos_part w' - len ≡ 0)
unfolding put_while_less emit
put_while_less-emit len (pos (suc w)) o = elim (Bool-cases (ltb len (suc w))) [
  | inl lt ↦
      let (w', e, z) = put_while_less-emit len (pos w) (put b' ' o) in
      (w', rw (lt, less len w lt) e, z)
  | inr ge ↦ (pos w, rw (ge, (not_less len w ge).0), (not_less len w ge).1)
]
put_while_less-emit len (pos zero) o = (negsuc 0, rw zero-sub, zero-sub len)
put_while_less-emit len (negsuc w) o = (negsuc (suc w), rw zero-sub, zero-sub len)

put_text-emit :
    (b : Bool) (s rest : List ℕ) (len : ℕ) (o : Out)
    → len ≤ length s
    → put_text b (s ++ rest) len o ≡ ok (tt, emit (expand_lf b (take len s)) o)
unfolding put_text emit expand_lf
put_text-emit b s rest zero o h = refl
put_text-emit b [] rest (suc len) o h = absurd (omega arith)
put_text-emit b (c ∷ s) rest (suc len) o h = elim (Bool-cases (b && c == b'\n')) [
  | inl e ↦ rw (e, put_text-emit b s rest len _ (omega arith))
  | inr e ↦ rw (e, put_text-emit b s rest len _ (omega arith))
]

length-shown : (s : List ℕ) (p : ℤ) → length (shown s p) ≤ length s
unfolding shown
length-shown s (pos p) = omega (arith, length-take p s)
length-shown s (negsuc p) = omega arith

text_length_lem :
    (s rest : List ℕ) (p : ℤ) → IsText s → text_length (s ++ 0 ∷ rest) p ≡ ok (length (shown s p))
unfolding text_length shown
text_length_lem s rest (pos p) h = strnlen_lem s rest p h ∙ ap ok (omega (arith, length-take p s))
text_length_lem s rest (negsuc p) h = strlen_lem s rest h

take-shown : (s : List ℕ) (p : ℤ) → take (length (shown s p)) s ≡ shown s p
unfolding shown
take-shown [] (pos zero) = refl
take-shown [] (pos (suc p)) = refl
take-shown (c ∷ s) (pos zero) = refl
take-shown (c ∷ s) (pos (suc p)) = ap (◌∷◌ c) (take-shown s (pos p))
take-shown [] (negsuc p) = refl
take-shown (c ∷ s) (negsuc p) = ap (◌∷◌ c) (take-shown s (negsuc p))

-- fmt_string() of a NUL-terminated string puts out, for every output buffer, the part that the
-- precision lets through, with every LF behind a CR if that is asked for, in a field of at least
-- `width` columns, filled up by spaces on the side that the flags choose.
pub fmt_string_lem :
    (s rest : List ℕ) (width precision : ℤ) (flags : Flags) (o : Out)
    → IsText s
    → fmt_string (some (s ++ 0 ∷ rest)) width precision flags o
      ≡ ok (tt, emit (string_text flags width (shown s precision)) o)
unfolding fmt_string lift string_text emit
fmt_string_lem s rest w p flags o h =
    let n = length (shown s p) in
    let body = expand_lf flags.lf_to_crlf (shown s p) in
    let copy : (o : Out) → put_text flags.lf_to_crlf (s ++ 0 ∷ rest) n o ≡ ok (tt, emit body o) =
      λ o.
        put_text-emit flags.lf_to_crlf s (0 ∷ rest) n o (length-shown s p)
        ∙ ap (λ t. ok (tt, emit (expand_lf flags.lf_to_crlf t) o)) (take-shown s p) in
    elim (Bool-cases flags.left) [
      | inl l ↦
          let (w', e, z) = put_while_less-emit n w (emit body o) in
          simp (text_length_lem s rest p h, l, copy, e, emit-append)
      | inr l ↦
          let (w', e, z) = put_while_less-emit n w o in
          let (w'', e', z') =
            put_while_less-emit n w' (emit body (emit (replicate (pos_part w - n) b' ') o)) in
          simp (text_length_lem s rest p h, l, e, copy, e', z, emit-append)
    ]
