-- ===== src/Tests/Printf.antt =====
-- common/libc/vsnprintf.c and arch/x86/decode.c at concrete inputs.
use xtf.Base.{
  ℕ, List, [], ◌∷◌, ◌≡◌, ◌≤◌, ◌⊎◌, refl, some, take, ◌%◌, replicate, ◌^◌, ◌+◌, ◌*◌, false, inl, inr,
  length, arith,
}
use xtf.Base.Int.{pos, negsuc, narrow}
use xtf.Base.Text.{codes}
use xtf.Base.Run.{ok, fault}
use xtf.Printf.Out.{Out, emit}
use xtf.Printf.Number.{no_flags, fmt_number}
use xtf.Printf.Number.Spec.{IsNumeral, magnitude, number_text, fmt_number_lem}
use xtf.Printf.Parse.{Arg, ptr}
use xtf.Printf.Format.{vsnprintf_internal}
use xtf.Printf.Str.{fmt_string}
use xtf.Printf.Str.Text.{string_text, shown, fmt_string_lem}
use xtf.Printf.Buffer.{terminated}
use xtf.Printf.Contract.{vsnprintf_internal_lem}
use xtf.Decode.{arch_fmt_pointer}
use xtf.Printf.Pointer.{advance}
use xtf.Decode.Exinfo.{ExceptionText, arch_fmt_pointer_lem}
use xtf.Decode.Hook.{arch_fmt_pointer-UniformHook}

abbrev buffer : List ℕ
buffer = replicate 24 b'.'

abbrev empty : Out
empty = record { mem = buffer; str = 0; end = 24; overrun = false }

abbrev pe_args : List Arg
pe_args = ptr (2 ^ 31 + 13 * 2 ^ 16 + 0x6b) [] ∷ []

fmt_number_lem_example :
    (digits : List ℕ) × IsNumeral false 10 (magnitude no_flags 42) digits
    × ((o : Out)
        → fmt_number 42 10 (pos 5) (negsuc 0) no_flags o
          ≡ ok (emit (number_text no_flags 10 42 (pos 5) (negsuc 0) digits) o))
fmt_number_lem_example =
    fmt_number_lem 42 10 (pos 5) (negsuc 0) no_flags (omega arith) (inr (inl refl))

fmt_string_lem_example :
    fmt_string (some (b'a' ∷ b'b' ∷ 0 ∷ [])) (pos 4) (pos 1) no_flags empty
    ≡ ok (tt, emit (string_text no_flags (pos 4) (shown (b'a' ∷ b'b' ∷ []) (pos 1))) empty)
fmt_string_lem_example =
    fmt_string_lem (b'a' ∷ b'b' ∷ []) [] (pos 4) (pos 1) no_flags empty
      (λ e. omega arith, (λ e. omega arith, tt))

vsnprintf_internal_lem_example :
    ((t : List ℕ) × ((buf : List ℕ) (size : ℕ)
        → size ≤ length buf
        → vsnprintf_internal arch_fmt_pointer buf size (codes "<%pe>") pe_args no_flags
          ≡ ok (narrow (length t), terminated buf size t)))
    ⊎ ((buf : List ℕ) (size : ℕ)
        → vsnprintf_internal arch_fmt_pointer buf size (codes "<%pe>") pe_args no_flags ≡ fault)
vsnprintf_internal_lem_example =
    vsnprintf_internal_lem arch_fmt_pointer arch_fmt_pointer-UniformHook (codes "<%pe>") pe_args
      no_flags

-- a #GP with an error code
arch_fmt_pointer_lem_example :
    (t : List ℕ) × ExceptionText ((2 ^ 31 + 13 * 2 ^ 16 + 0x6b) % 2 ^ 32) t
    × ((o : Out)
        → arch_fmt_pointer
            (codes "pe")
            (2 ^ 31 + 13 * 2 ^ 16 + 0x6b)
            (negsuc 0)
            (negsuc 0)
            no_flags
            o
          ≡ ok (
            some (advance (codes "pe")),
            emit (string_text no_flags (negsuc 0) (shown (take 15 t) (negsuc 0))) o,
          ))
arch_fmt_pointer_lem_example =
    arch_fmt_pointer_lem (codes "pe") (2 ^ 31 + 13 * 2 ^ 16 + 0x6b) (negsuc 0) (negsuc 0) no_flags
      refl
