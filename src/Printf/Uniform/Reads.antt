-- ===== src/Printf/Uniform/Reads.antt =====
-- How the functions that read arguments and conversion specifications end, and that what is left of
-- the format string gets no longer.
use xtf.Base.{
  ℕ, suc, ◌+◌, ◌-◌, ◌*◌, ◌^◌, ◌≤◌, Bool, ltb, List, [], ◌∷◌, Option, none, some, get_or, length,
  arith,
}
use native.Mathlib.Nat.{le_refl, le_trans}
use xtf.Base.Int.{ℤ, pos, negsuc}
use xtf.Base.Run.{Ends, ended, faulted, Ends-bind, Ends-split}
use xtf.Printf.Number.{Flags}
use xtf.Printf.Writer.{Anything}
use xtf.Printf.Pointer.{advance}
use xtf.Printf.Parse.{
  Arg, LengthMod, int, long, str, ptr, int_arg, long_arg, str_arg, ptr_arg, isdigit, fmt_int, flag,
  parse_flags, absolute_width, parse_width, parse_precision, parse_length, starts, signed32,
}
use xtf.Printf.Format.{number_arg}
use xtf.Printf.Uniform.Pointers.{advance-le}

pub int_arg-Ends : (args : List Arg) → Ends Anything (int_arg args)
unfolding int_arg
int_arg-Ends [] = faulted
int_arg-Ends (int v ∷ args) = ended tt
int_arg-Ends (_ ∷ args) = faulted

pub long_arg-Ends : (args : List Arg) → Ends Anything (long_arg args)
unfolding long_arg
long_arg-Ends [] = faulted
long_arg-Ends (long v ∷ args) = ended tt
long_arg-Ends (_ ∷ args) = faulted

pub str_arg-Ends : (args : List Arg) → Ends Anything (str_arg args)
unfolding str_arg
str_arg-Ends [] = faulted
str_arg-Ends (str v ∷ args) = ended tt
str_arg-Ends (_ ∷ args) = faulted

pub ptr_arg-Ends : (args : List Arg) → Ends Anything (ptr_arg args)
unfolding ptr_arg
ptr_arg-Ends [] = faulted
ptr_arg-Ends (ptr v m ∷ args) = ended tt
ptr_arg-Ends (_ ∷ args) = faulted

pub number_arg-Ends :
    (l : LengthMod) (signed : Bool) (args : List Arg) → Ends Anything (number_arg l signed args)
unfolding number_arg
number_arg-Ends LengthMod.char signed args = Ends-bind (int_arg-Ends args) (λ _ _. ended tt)
number_arg-Ends LengthMod.short signed args = Ends-bind (int_arg-Ends args) (λ _ _. ended tt)
number_arg-Ends LengthMod.plain signed args = Ends-bind (int_arg-Ends args) (λ _ _. ended tt)
number_arg-Ends LengthMod.size signed args = long_arg-Ends args
number_arg-Ends LengthMod.long signed args = Ends-bind (long_arg-Ends args) (λ _ _. ended tt)
number_arg-Ends LengthMod.long_long signed args = Ends-bind (long_arg-Ends args) (λ _ _. ended tt)

pub parse_flags-le : (fmt : List ℕ) (flags : Flags) → length (parse_flags fmt flags).1 ≤ length fmt
unfolding parse_flags
parse_flags-le [] flags = omega arith
parse_flags-le (c ∷ fmt) flags = after (flag c flags) (parse_flags-le fmt)
  where
    after :
        (o : Option Flags)
        → ((f : Flags) → length (parse_flags fmt f).1 ≤ length fmt)
        → length
            (elim o as (λ _. Flags × List ℕ) [
              | some f ↦ parse_flags fmt f
              | none ↦ (flags, c ∷ fmt)
            ]).1
          ≤ suc (length fmt)
    after none ih = omega arith
    after (some f) ih = omega (arith, ih f)

-- the rest of the format string in the result of a parser
abbrev pub Leaves : ℕ → ℤ × List ℕ → Type 0
Leaves n r = length r.1 ≤ n

fmt_int-Ends : (fmt : List ℕ) (res n : ℕ) → length fmt ≤ n → Ends (Leaves n) (fmt_int fmt res)
unfolding fmt_int
fmt_int-Ends [] res n h = ended h
fmt_int-Ends (c ∷ fmt) res n h =
    Ends-split (isdigit c)
      (λ _.
        Ends-split (ltb (res * 10 + (c - b'0')) (2 ^ 31)) (λ _. fmt_int-Ends fmt _ n (omega arith))
          (λ _. faulted))
      (λ _. ended h)

absolute_width-Ends : (w : ℤ) (flags : Flags) → Ends Anything (absolute_width w flags)
unfolding absolute_width
absolute_width-Ends (pos w) flags = ended tt
absolute_width-Ends (negsuc w) flags =
    Ends-split (ltb (w + 1) (2 ^ 31)) (λ _. ended tt) (λ _. faulted)

pub parse_width-Ends :
    (fmt : List ℕ) (args : List Arg) (flags : Flags)
    → Ends (λ r. length r.1 ≤ length fmt) (parse_width fmt args flags)
unfolding parse_width
parse_width-Ends fmt args flags =
    Ends-split (starts b'*' fmt)
      (λ _.
        Ends-bind (int_arg-Ends args)
          λ a _. Ends-bind (absolute_width-Ends (signed32 a.0) flags) λ _ _. ended (advance-le fmt))
      (λ _.
        Ends-split (isdigit (get_or fmt 0 0))
          (λ _.
            Ends-bind (fmt_int-Ends fmt 0 (length fmt) (le_refl _))
              λ a l. Ends-bind (absolute_width-Ends a.0 flags) λ _ _. ended l)
          (λ _. ended (le_refl (length fmt))))

pub parse_precision-Ends :
    (fmt : List ℕ) (args : List Arg)
    → Ends (λ r. length r.1 ≤ length fmt) (parse_precision fmt args)
unfolding parse_precision
parse_precision-Ends fmt args =
    Ends-split (starts b'.' fmt)
      (λ _.
        Ends-split (starts b'*' (advance fmt))
          (λ _.
            Ends-bind (int_arg-Ends args)
              λ a _. ended (le_trans (advance-le (advance fmt)) (advance-le fmt)))
          (λ _.
            Ends-split (isdigit (get_or (advance fmt) 0 0))
              (λ _.
                Ends-bind (fmt_int-Ends (advance fmt) 0 (length fmt) (advance-le fmt))
                  λ a l. ended l)
              (λ _. ended (advance-le fmt))))
      (λ _. ended (le_refl (length fmt)))

pub parse_length-le : (fmt : List ℕ) → length (parse_length fmt).1 ≤ length fmt
unfolding parse_length
parse_length-le fmt = ground (arith, advance-le fmt, advance-le (advance fmt))
