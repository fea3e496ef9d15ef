-- ===== src/Printf/Uniform/Loop.antt =====
-- The conversions and the loop of vsnprintf_internal().
use xtf.Base.{
  ℕ, zero, suc, ◌%◌, ◌≤◌, Bool, true, false, ◌&&◌, ◌==◌, if◌then◌else◌, List, [], ◌∷◌, Option, none,
  some, get_or, length, arith,
}
use native.Mathlib.Nat.{le_refl, le_trans}
use xtf.Base.Int.{ℤ, pos, negsuc}
use xtf.Printf.Number.{Flags}
use xtf.Printf.Writer.{
  M, return, Uniform, Anything, Uniform-return, Uniform-split, Uniform-bind, Uniform-put,
  Uniform-put_if, Uniform-lift, Uniform-weaken,
}
use xtf.Printf.Pointer.{ArchHook, advance}
use xtf.Printf.Parse.{Arg, parse_flags, parse_length}
use xtf.Printf.Format.{
  Rest, Directive, put_while_pre, put_character, convert_number, convert_char, convert_string,
  convert_pointer, convert, directive, format_loop, or_literal,
}
use xtf.Printf.Uniform.Parts.{fmt_number-Uniform, fmt_string-Uniform}
use xtf.Printf.Uniform.Pointers.{advance-le, UniformHook, pointer-Uniform}
use xtf.Printf.Uniform.Reads.{
  int_arg-Ends, str_arg-Ends, ptr_arg-Ends, number_arg-Ends, parse_flags-le, parse_width-Ends,
  parse_precision-Ends, parse_length-le,
}

-- what the loop has left to do is within `n` characters
abbrev pub RestWithin : ℕ → Rest → Type 0
RestWithin n r = length r.0 ≤ n

put_while_pre-Uniform : (w : ℤ) → Uniform Anything (put_while_pre w)
unfolding put_while_pre
put_while_pre-Uniform (pos (suc (suc w))) =
    Uniform-bind (Uniform-put b' ') λ _ _. put_while_pre-Uniform (pos (suc w))
put_while_pre-Uniform (pos (suc zero)) = Uniform-return _ tt
put_while_pre-Uniform (pos zero) = Uniform-return _ tt
put_while_pre-Uniform (negsuc w) = Uniform-return _ tt

put_character-Uniform : (c : ℕ) (w : ℤ) (flags : Flags) → Uniform Anything (put_character c w flags)
unfolding put_character
put_character-Uniform c w flags =
    Uniform-bind (Uniform-put_if (flags.lf_to_crlf && c == b'\n') b'\r') λ _ _.
      Uniform-bind (Uniform-put c)
        λ _ _. Uniform-bind (put_while_pre-Uniform w) λ _ _. Uniform-return tt tt

char_padding-Uniform :
    (left : Bool) (w : ℤ) → Uniform Anything (if left then return w else put_while_pre w)
char_padding-Uniform true w = Uniform-return w tt
char_padding-Uniform false w = put_while_pre-Uniform w

module _ (d : Directive) (fmt : List ℕ) (args : List Arg) where
  convert_number-Uniform :
      (conversion : ℕ × Flags)
      → Uniform (RestWithin (length fmt)) (convert_number d conversion fmt args)
  unfolding convert_number
  convert_number-Uniform (base, flags) =
      Uniform-bind (Uniform-lift (number_arg-Ends d.length_mod flags.signed args)) λ a _.
        Uniform-bind (fmt_number-Uniform a.0 base d.width d.precision flags)
          λ _ _. Uniform-return _ (advance-le fmt)

  convert_char-Uniform : Uniform (RestWithin (length fmt)) (convert_char d fmt args)
  unfolding convert_char
  convert_char-Uniform = Uniform-bind (Uniform-lift (int_arg-Ends args)) λ a _.
      Uniform-bind (char_padding-Uniform d.flags.left d.width) λ w _.
        Uniform-bind (put_character-Uniform (a.0 % 256) w d.flags)
          λ _ _. Uniform-return _ (advance-le fmt)

  convert_string-Uniform : Uniform (RestWithin (length fmt)) (convert_string d fmt args)
  unfolding convert_string
  convert_string-Uniform = Uniform-bind (Uniform-lift (str_arg-Ends args)) λ a _.
      Uniform-bind (fmt_string-Uniform a.0 d.width d.precision d.flags)
        λ _ _. Uniform-return _ (advance-le fmt)

module _ (arch : ArchHook) (h : UniformHook arch) where
  convert_pointer-Uniform :
      (d : Directive) (fmt : List ℕ) (args : List Arg)
      → Uniform (RestWithin (length fmt)) (convert_pointer arch d fmt args)
  unfolding convert_pointer
  convert_pointer-Uniform d fmt args = Uniform-bind (Uniform-lift (ptr_arg-Ends args)) λ a _.
      Uniform-bind (pointer-Uniform arch h fmt a.0.0 a.0.1 d.width d.precision d.flags)
        λ after l. Uniform-return _ (le_trans (advance-le after) l)

  or_literal-Uniform :
      (spec : List ℕ) (d : Directive) (fmt : List ℕ) (args : List Arg) (o : Option (ℕ × Flags))
      → length fmt ≤ length spec
      → Uniform (RestWithin (length spec)) (or_literal spec d fmt args o)
  unfolding or_literal
  or_literal-Uniform spec d fmt args (some c) l =
      Uniform-weaken (convert_number-Uniform d fmt args c) λ r k. le_trans k l
  or_literal-Uniform spec d fmt args none l =
      Uniform-bind (Uniform-put b'%') λ _ _. Uniform-return (spec, args) (le_refl (length spec))

  convert-Uniform :
      (spec : List ℕ) (d : Directive) (fmt : List ℕ) (args : List Arg)
      → length fmt ≤ length spec
      → Uniform (RestWithin (length spec)) (convert arch spec d fmt args)
  unfolding convert
  convert-Uniform spec d fmt args l =
      Uniform-split (get_or fmt 0 0 == b'%')
        (λ _.
          Uniform-bind (Uniform-put b'%')
            λ _ _. Uniform-return (advance fmt, args) (le_trans (advance-le fmt) l))
        λ _.
          Uniform-split (get_or fmt 0 0 == b'c') (λ _. shorter (convert_char-Uniform d fmt args))
            λ _.
              Uniform-split (get_or fmt 0 0 == b's')
                (λ _. shorter (convert_string-Uniform d fmt args))
                λ _.
                  Uniform-split (get_or fmt 0 0 == b'p')
                    (λ _. shorter (convert_pointer-Uniform d fmt args))
                    λ _. or_literal-Uniform spec d fmt args _ l
    where
      shorter :
          {f : M Rest} → Uniform (RestWithin (length fmt)) f → Uniform (RestWithin (length spec)) f
      shorter u = Uniform-weaken u λ r k. le_trans k l

  directive-Uniform :
      (flags : Flags) (spec : List ℕ) (args : List Arg)
      → Uniform (RestWithin (length spec)) (directive arch flags spec args)
  unfolding directive
  directive-Uniform flags spec args =
      let parsed = parse_flags spec flags in
      Uniform-bind (Uniform-lift (parse_width-Ends parsed.1 args parsed.0)) λ w k.
        Uniform-bind (Uniform-lift (parse_precision-Ends w.1 w.2)) λ p l.
          convert-Uniform spec _ (parse_length p.1).1 p.2
            (omega (arith, parse_flags-le spec flags, parse_length-le p.1))

  -- The loop ends if it has one round for each character of the format string.
  pub format_loop-Uniform :
      (flags : Flags) (fuel : ℕ) (fmt : List ℕ) (args : List Arg)
      → length fmt ≤ fuel
      → Uniform Anything (format_loop arch flags fuel fmt args)
  unfolding format_loop
  format_loop-Uniform flags fuel [] args l = Uniform-return tt tt
  format_loop-Uniform flags zero (c ∷ fmt) args l = absurd (omega arith)
  format_loop-Uniform flags (suc fuel) (c ∷ fmt) args l =
      Uniform-split (c == b'%')
        (λ _.
          Uniform-bind (directive-Uniform flags fmt args)
            λ r k. format_loop-Uniform flags fuel r.0 r.1 (omega arith))
        λ _.
          Uniform-bind (put_character-Uniform c (negsuc 0) flags)
            λ _ _. format_loop-Uniform flags fuel fmt args (omega arith)
