-- ===== src/Printf/Uniform/Parts.antt =====
-- fmt_number() and fmt_string().
use xtf.Base.{
  ℕ, zero, suc, ◌-◌, ◌≡◌, refl, ap, Bool, true, false, ◌&&◌, not, ltb, if◌then◌else◌, List, [], ◌∷◌,
  ◌++◌, max, Option, none, some, length,
}
use mathlib.Core.List.{reverse}
use xtf.Base.Int.{ℤ, pos, negsuc, pos_part}
use xtf.Base.Run.{ok, or_fault, Ends, ◌>>=◌ as ◌then_run◌}
use xtf.CString.Length.{strlen-Ends, strnlen-Ends}
use xtf.Printf.Out.{emit}
use xtf.Printf.Number.{Flags, fmt_number, put_number, is_minus_one}
use xtf.Printf.Number.Text.{layout, put_number-emit, prefix_text, alternate_text}
use xtf.Printf.Writer.{
  return, writing, Uniform, emits, undefined_behaviour, Anything, Uniform-return, Uniform-undefined,
  Uniform-split, Uniform-bind, Uniform-put, Uniform-put_if, Uniform-lift,
}
use xtf.Printf.Str.{put_while_less, put_text, text_of, text_length, fmt_string}
use xtf.Printf.Number.Spec.{no_zeros_on_the_left}

module _ (f : Flags) (base c : ℕ) (w p : ℤ) (ok_flags : (f.left && f.zero_pad) ≡ false) where
  put_number-Uniform :
      (invalid : Bool) (tmp : Option (List ℕ))
      → Uniform Anything (
          writing (λ o.
            if invalid
            then ok o
            else or_fault tmp then_run λ tmp. ok (put_number f base c tmp w p o)))
  unfolding emit
  put_number-Uniform true tmp = emits tt [] tt (λ o. refl)
  put_number-Uniform false none = undefined_behaviour (λ o. refl)
  put_number-Uniform false (some tmp) =
      emits tt
        (layout f.left f.zero_pad (prefix_text c ++ alternate_text f base)
          (max (length tmp) (pos_part p) - length tmp) (reverse tmp)
          (pos_part w - max (length tmp) (pos_part p)))
        tt (λ o. ap (λ o'. ok (tt, o')) (put_number-emit f base c tmp _ w p o ok_flags refl))

pub fmt_number-Uniform :
    (val base : ℕ) (w p : ℤ) (flags : Flags)
    → Uniform Anything (writing (fmt_number val base w p flags))
unfolding fmt_number
fmt_number-Uniform val base w p flags =
    put_number-Uniform _ base _ _ _
      (no_zeros_on_the_left flags.left flags.zero_pad (not (is_minus_one p))) _ _

put_while_less-Uniform : (len : ℕ) (w : ℤ) → Uniform Anything (put_while_less len w)
unfolding put_while_less
put_while_less-Uniform len (pos (suc w)) =
    Uniform-split (ltb len (suc w))
      (λ _. Uniform-bind (Uniform-put b' ') λ _ _. put_while_less-Uniform len (pos w))
      (λ _. Uniform-return _ tt)
put_while_less-Uniform len (pos zero) = Uniform-return _ tt
put_while_less-Uniform len (negsuc w) = Uniform-return _ tt

put_text-Uniform : (b : Bool) (s : List ℕ) (len : ℕ) → Uniform Anything (put_text b s len)
unfolding put_text
put_text-Uniform b s zero = Uniform-return tt tt
put_text-Uniform b [] (suc len) = Uniform-undefined
put_text-Uniform b (c ∷ s) (suc len) =
    Uniform-bind (Uniform-put_if _ _)
      λ _ _. Uniform-bind (Uniform-put c) λ _ _. put_text-Uniform b s len

text_length-Ends : (s : List ℕ) (p : ℤ) → Ends Anything (text_length s p)
unfolding text_length
text_length-Ends s (pos n) = strnlen-Ends s n
text_length-Ends s (negsuc n) = strlen-Ends s

padding-Uniform :
    (left : Bool) (len : ℕ) (w : ℤ)
    → Uniform Anything (if left then return w else put_while_less len w)
padding-Uniform true len w = Uniform-return w tt
padding-Uniform false len w = put_while_less-Uniform len w

pub fmt_string-Uniform :
    (val : Option (List ℕ)) (w p : ℤ) (flags : Flags) → Uniform Anything (fmt_string val w p flags)
unfolding fmt_string
fmt_string-Uniform val w p flags =
    Uniform-bind (Uniform-lift (text_length-Ends (text_of val) p)) λ len _.
      Uniform-bind (padding-Uniform flags.left len w) λ w' _.
        Uniform-bind (put_text-Uniform flags.lf_to_crlf (text_of val) len)
          λ _ _. Uniform-bind (put_while_less-Uniform len w') λ _ _. Uniform-return tt tt
