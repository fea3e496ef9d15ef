-- ===== src/Domid/Digits.antt =====
-- How xenstore_get_domid() of common/lib.c reads a number.
use xtf.Base.{
  ℕ, ◌+◌, ◌-◌, ◌*◌, ◌%◌, ◌^◌, ◌<◌, ◌≡◌, refl, ap, ◌∙◌, sym, true, false, List, [], ◌∷◌, ◌++◌, some,
  arith, All,
}
use xtf.Base.Int.{pos}
use xtf.Base.Run.{ok}
use xtf.Printf.Number.{digit}
use xtf.Printf.Number.Digits.{read_number, digit_value, IsDigit}
use xtf.Printf.Number.Spec.{IsNumeral}
use xtf.Printf.Parse.{isdigit}
use xtf.Domid.{read_digits, below_reserved, parse_domid}

digit_lem : (c : ℕ) → IsDigit false 10 c → (isdigit c ≡ true) × (c - b'0' ≡ digit_value c)
unfolding isdigit digit_value digit
digit_lem c (d, lt, e) = (ground arith, ground arith)

next_mod : (a d : ℕ) → (a % 2 ^ 32 * 10 + d) % 2 ^ 32 ≡ (a * 10 + d) % 2 ^ 32
next_mod a d = omega arith

read_number-mod :
    (s : List ℕ) (a : ℕ) → read_number 10 (a % 2 ^ 32) s % 2 ^ 32 ≡ read_number 10 a s % 2 ^ 32
unfolding read_number
read_number-mod [] a = omega arith
read_number-mod (c ∷ s) a =
    sym (read_number-mod s (a % 2 ^ 32 * 10 + digit_value c))
    ∙ ap (λ v. read_number 10 v s % 2 ^ 32) (next_mod a (digit_value c))
    ∙ read_number-mod s (a * 10 + digit_value c)

read_digits_lem :
    (s rest : List ℕ) (c a : ℕ)
    → All (IsDigit false 10) s
    → isdigit c ≡ false
    → read_digits (s ++ c ∷ rest) (a % 2 ^ 32) ≡ ok (read_number 10 a s % 2 ^ 32)
unfolding read_digits read_number
read_digits_lem [] rest c a h e = rw e refl
read_digits_lem (d ∷ s) rest c a h e =
    let (is, value) = digit_lem d h.0 in
    rw (is, value, next_mod a (digit_value d))
      (read_digits_lem s rest c (a * 10 + digit_value d) h.1 e)

-- Of a text that starts with a digit xenstore_get_domid() reads the number that the digits in front of
-- the first other character stand for, modulo 2^32, and returns -1 if that is a reserved ID.
pub parse_domid_lem :
    (d : ℕ) (s rest : List ℕ) (c : ℕ)
    → All (IsDigit false 10) (d ∷ s)
    → isdigit c ≡ false
    → parse_domid (some (d ∷ s ++ c ∷ rest))
      ≡ ok (below_reserved (read_number 10 0 (d ∷ s) % 2 ^ 32))
unfolding parse_domid
parse_domid_lem d s rest c h e = rw ((digit_lem d h.0).0, read_digits_lem (d ∷ s) rest c 0 h e) refl

-- xenstore_get_domid() reads back the ID of a domain that is not reserved from its shortest decimal
-- numeral.
pub parse_domid-IsNumeral :
    (n : ℕ) (s rest : List ℕ)
    → n < 0x7ff0
    → IsNumeral false 10 n s
    → parse_domid (some (s ++ 0 ∷ rest)) ≡ ok (pos n)
unfolding isdigit
parse_domid-IsNumeral n [] rest h v = absurd (omega (arith, v.one_at_least))
parse_domid-IsNumeral n (d ∷ s) rest h v =
    parse_domid_lem d s rest 0 v.chars refl
    ∙ ap (λ m. ok (below_reserved (m % 2 ^ 32))) v.reads
    ∙ ground arith
