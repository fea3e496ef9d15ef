-- ===== src/Decode/Text.antt =====
-- The texts of arch/x86/decode.c.
use Prim.Native.String.{String}
use xtf.Base.{
  ℕ, ◌%◌, ◌-◌, ◌^◌, ◌<◌, ◌≡◌, refl, ap, sym, ◌∙◌, false, true, List, [], ◌∷◌, ◌++◌, length, some,
  replicate, inl, inr, arith,
}
use native.Mathlib.Nat.{zero-sub}
use xtf.Base.Int.{pos, negsuc}
use xtf.Base.Text.{codes}
use xtf.Base.Run.{ok}
use xtf.Printf.Out.{Out, put, emit, emit-append}
use xtf.Printf.Parse.{Arg, int, str}
use xtf.Printf.Number.{no_flags, fmt_number}
use xtf.Printf.Number.Text.{layout, alternate_text}
use xtf.Printf.Number.Spec.{IsNumeral, sign_text, magnitude, number_text, fmt_number_lem}
use xtf.Printf.Format.{format_loop}
use xtf.CString.Length.{IsText}
use xtf.Printf.Str.{fmt_string}
use xtf.Printf.Str.Text.{expand_lf, string_text, shown, fmt_string_lem}
use xtf.Decode.{no_hook}

-- what a format puts out
abbrev pub Puts : String → List Arg → List ℕ → Type 0
Puts fmt args t =
    (o : Out)
    → format_loop no_hook no_flags (length (codes fmt)) (codes fmt) args o ≡ ok (tt, emit t o)

expand_lf-false : (s : List ℕ) → expand_lf false s ≡ s
unfolding expand_lf
expand_lf-false [] = refl
expand_lf-false (c ∷ s) = ap (◌∷◌ c) (expand_lf-false s)

plain_string :
    (s rest : List ℕ) (o : Out)
    → IsText s
    → fmt_string (some (s ++ 0 ∷ rest)) (negsuc 0) (negsuc 0) no_flags o ≡ ok (tt, emit s o)
unfolding string_text shown
plain_string s rest o h =
    fmt_string_lem s rest (negsuc 0) (negsuc 0) no_flags o h
    ∙ rw (expand_lf-false s, zero-sub (length s)) refl

pub six :
    (a b c d e f : ℕ)
    → Puts "%c%c%c%c%c%c" (int a ∷ int b ∷ int c ∷ int d ∷ int e ∷ int f ∷ []) (
        a % 2 ^ 32 % 256
        ∷ b % 2 ^ 32 % 256
        ∷ c % 2 ^ 32 % 256
        ∷ d % 2 ^ 32 % 256
        ∷ e % 2 ^ 32 % 256
        ∷ f % 2 ^ 32 % 256
        ∷ [])
unfolding format_loop xtf.Printf.Format.put_character xtf.Printf.Format.put_while_pre put
    xtf.Printf.Format.directive xtf.Printf.Parse.parse_flags xtf.Printf.Parse.parse_width
    xtf.Printf.Parse.parse_precision xtf.Printf.Parse.parse_length xtf.Printf.Writer.lift
    xtf.Printf.Format.convert xtf.Printf.Parse.flag xtf.Printf.Format.convert_char
    xtf.Printf.Format.convert_string xtf.Printf.Parse.str_arg xtf.Printf.Parse.int_arg
    xtf.Printf.Parse.isdigit xtf.Printf.Parse.fmt_int xtf.Printf.Parse.absolute_width
    xtf.Printf.Format.or_literal xtf.Printf.Format.convert_number
    xtf.Printf.Format.number_conversion xtf.Printf.Format.number_arg xtf.Printf.Format.cast emit
six a b c d e f o = refl

pub nothing : Puts "nothing" [] (codes "nothing")
unfolding format_loop xtf.Printf.Format.put_character xtf.Printf.Format.put_while_pre put
    xtf.Printf.Format.directive xtf.Printf.Parse.parse_flags xtf.Printf.Parse.parse_width
    xtf.Printf.Parse.parse_precision xtf.Printf.Parse.parse_length xtf.Printf.Writer.lift
    xtf.Printf.Format.convert xtf.Printf.Parse.flag xtf.Printf.Format.convert_char
    xtf.Printf.Format.convert_string xtf.Printf.Parse.str_arg xtf.Printf.Parse.int_arg
    xtf.Printf.Parse.isdigit xtf.Printf.Parse.fmt_int xtf.Printf.Parse.absolute_width
    xtf.Printf.Format.or_literal xtf.Printf.Format.convert_number
    xtf.Printf.Format.number_conversion xtf.Printf.Format.number_arg xtf.Printf.Format.cast emit
nothing o = refl

pub one_string : (s : List ℕ) → IsText s → Puts "%s" (str (some (s ++ 0 ∷ [])) ∷ []) s
unfolding format_loop xtf.Printf.Format.put_character xtf.Printf.Format.put_while_pre put
    xtf.Printf.Format.directive xtf.Printf.Parse.parse_flags xtf.Printf.Parse.parse_width
    xtf.Printf.Parse.parse_precision xtf.Printf.Parse.parse_length xtf.Printf.Writer.lift
    xtf.Printf.Format.convert xtf.Printf.Parse.flag xtf.Printf.Format.convert_char
    xtf.Printf.Format.convert_string xtf.Printf.Parse.str_arg xtf.Printf.Parse.int_arg
    xtf.Printf.Parse.isdigit xtf.Printf.Parse.fmt_int xtf.Printf.Parse.absolute_width
    xtf.Printf.Format.or_literal xtf.Printf.Format.convert_number
    xtf.Printf.Format.number_conversion xtf.Printf.Format.number_arg xtf.Printf.Format.cast emit
one_string s h o = rw (plain_string s [] o h) refl

pub two_strings :
    (s t u : List ℕ)
    → IsText s
    → IsText t
    → Puts "%s[%s]"
        (str (some (s ++ 0 ∷ [])) ∷ str (some (t ++ 0 ∷ u)) ∷ [])
        (s ++ (b'[' ∷ (t ++ (b']' ∷ []))))
unfolding format_loop xtf.Printf.Format.put_character xtf.Printf.Format.put_while_pre put
    xtf.Printf.Format.directive xtf.Printf.Parse.parse_flags xtf.Printf.Parse.parse_width
    xtf.Printf.Parse.parse_precision xtf.Printf.Parse.parse_length xtf.Printf.Writer.lift
    xtf.Printf.Format.convert xtf.Printf.Parse.flag xtf.Printf.Format.convert_char
    xtf.Printf.Format.convert_string xtf.Printf.Parse.str_arg xtf.Printf.Parse.int_arg
    xtf.Printf.Parse.isdigit xtf.Printf.Parse.fmt_int xtf.Printf.Parse.absolute_width
    xtf.Printf.Format.or_literal xtf.Printf.Format.convert_number
    xtf.Printf.Format.number_conversion xtf.Printf.Format.number_arg xtf.Printf.Format.cast emit
two_strings s t u h k o =
    rw (plain_string s [] o h, plain_string t u _ k)
      (ap (λ x. ok (tt, x))
        (sym (
          emit-append s (b'[' ∷ (t ++ (b']' ∷ []))) o
          ∙ emit-append t (b']' ∷ []) (put b'[' (emit s o)))))

pub selector :
    (c sel : ℕ) (digits ext : List ℕ)
    → ((o : Out)
        → fmt_number (sel % 2 ^ 32 % 2 ^ 32) 10 (negsuc 0) (negsuc 0) no_flags o
          ≡ ok (emit digits o))
    → IsText ext
    → Puts "%cDT[%u]%s"
        (int c ∷ int sel ∷ str (some (ext ++ 0 ∷ [])) ∷ [])
        (c % 2 ^ 32 % 256 ∷ b'D' ∷ b'T' ∷ b'[' ∷ (digits ++ (b']' ∷ ext)))
unfolding format_loop xtf.Printf.Format.put_character xtf.Printf.Format.put_while_pre put
    xtf.Printf.Format.directive xtf.Printf.Parse.parse_flags xtf.Printf.Parse.parse_width
    xtf.Printf.Parse.parse_precision xtf.Printf.Parse.parse_length xtf.Printf.Writer.lift
    xtf.Printf.Format.convert xtf.Printf.Parse.flag xtf.Printf.Format.convert_char
    xtf.Printf.Format.convert_string xtf.Printf.Parse.str_arg xtf.Printf.Parse.int_arg
    xtf.Printf.Parse.isdigit xtf.Printf.Parse.fmt_int xtf.Printf.Parse.absolute_width
    xtf.Printf.Format.or_literal xtf.Printf.Format.convert_number
    xtf.Printf.Format.number_conversion xtf.Printf.Format.number_arg xtf.Printf.Format.cast emit
selector c sel digits ext e k o =
    rw (e _, plain_string ext [] _ k)
      (ap (λ x. ok (tt, x)) (sym (emit-append digits (b']' ∷ ext) _)))

pub four_digits :
    (v : ℕ) (t : List ℕ)
    → ((o : Out)
        → fmt_number
            (v % 2 ^ 32 % 2 ^ 32)
            16
            (pos 4)
            (negsuc 0)
            (record no_flags { zero_pad = true })
            o
          ≡ ok (emit t o))
    → Puts "%04x" (int v ∷ []) t
unfolding format_loop xtf.Printf.Format.put_character xtf.Printf.Format.put_while_pre put
    xtf.Printf.Format.directive xtf.Printf.Parse.parse_flags xtf.Printf.Parse.parse_width
    xtf.Printf.Parse.parse_precision xtf.Printf.Parse.parse_length xtf.Printf.Writer.lift
    xtf.Printf.Format.convert xtf.Printf.Parse.flag xtf.Printf.Format.convert_char
    xtf.Printf.Format.convert_string xtf.Printf.Parse.str_arg xtf.Printf.Parse.int_arg
    xtf.Printf.Parse.isdigit xtf.Printf.Parse.fmt_int xtf.Printf.Parse.absolute_width
    xtf.Printf.Format.or_literal xtf.Printf.Format.convert_number
    xtf.Printf.Format.number_conversion xtf.Printf.Format.number_arg xtf.Printf.Format.cast emit
four_digits v t e o = rw (e _) refl

-- numbers without a field
plain_layout :
    (digits : List ℕ) (padding fill : ℕ)
    → padding ≡ 0
    → fill ≡ 0
    → layout false false [] padding digits fill ≡ digits
unfolding layout
plain_layout digits padding fill a b = rw (a, b) refl

zero_layout :
    (digits : List ℕ) (padding fill n : ℕ)
    → padding ≡ 0
    → fill ≡ n
    → layout false true [] padding digits fill ≡ replicate n b'0' ++ digits
unfolding layout
zero_layout digits padding fill n a b = rw (a, b) refl

pub decimal :
    (v : ℕ)
    → v < 2 ^ 32
    → (digits : List ℕ) × IsNumeral false 10 v digits
      × ((o : Out)
          → fmt_number (v % 2 ^ 32 % 2 ^ 32) 10 (negsuc 0) (negsuc 0) no_flags o
            ≡ ok (emit digits o))
unfolding number_text sign_text magnitude alternate_text
decimal v h =
    let e : v % 2 ^ 32 % 2 ^ 32 ≡ v = omega (arith, h) in
    let (digits, n, p) =
      fmt_number_lem v 10 (negsuc 0) (negsuc 0) no_flags (omega (arith, h)) (inr (inl refl)) in
    (
      digits,
      n,
      λ o.
          ap (λ n. fmt_number n 10 (negsuc 0) (negsuc 0) no_flags o) e
          ∙ p o
          ∙ ap (λ t. ok (emit t o)) (plain_layout digits _ _ (omega arith) (omega arith)),
    )

pub hexadecimal :
    (v : ℕ)
    → v < 2 ^ 32
    → (digits : List ℕ) × IsNumeral false 16 v digits
      × ((o : Out)
          → fmt_number
              (v % 2 ^ 32 % 2 ^ 32)
              16
              (pos 4)
              (negsuc 0)
              (record no_flags { zero_pad = true })
              o
            ≡ ok (emit (replicate (4 - length digits) b'0' ++ digits) o))
unfolding number_text sign_text magnitude alternate_text
hexadecimal v h =
    let e : v % 2 ^ 32 % 2 ^ 32 ≡ v = omega (arith, h) in
    let (digits, n, p) =
      fmt_number_lem v 16 (pos 4) (negsuc 0) (record no_flags { zero_pad = true })
        (omega (arith, h)) (inr (inr refl)) in
    (
      digits,
      n,
      λ o.
          ap (λ n. fmt_number n 16 (pos 4) (negsuc 0) (record no_flags { zero_pad = true }) o) e
          ∙ p o
          ∙ ap (λ t. ok (emit t o))
              (zero_layout digits _ _ (4 - length digits) (omega arith) (omega arith)),
    )
