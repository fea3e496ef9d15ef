-- ===== src/Suite/Selftest.antt =====
-- tests/selftest/main.c, for a 64 bit environment.
pub mod Steps
use Prim.Native.String.{String}
use xtf.Base.{
  ℕ, suc, ◌+◌, ◌*◌, ◌/◌, ◌%◌, ◌^◌, ◌==◌, not, ◌&&◌, ◌||◌, ltb, leb, Bool, true, false,
  if◌then◌else◌, List, [], ◌∷◌, ◌++◌, Option, none, some, length,
}
use xtf.Base.Int.{ℤ, pos, negsuc}
use xtf.Base.Text.{codes}
use xtf.Base.Run.{Run, ok, fault, out_of_fuel, ◌>>=◌}
use xtf.CString.{strcmp}
use xtf.Printf.Number.{Flags, no_flags}
use xtf.Printf.Parse.{Arg, int, str, ptr}
use xtf.Printf.Pointer.{ArchHook}
use xtf.Printf.Format.{vsnprintf_internal}
use xtf.Report.{Report, printk, xtf_failure}
use xtf.Extable.{CpuRegs, Entry}
use xtf.Suite.{Test, return, say, success, failure, message, Fault}
use xtf.Suite.Argo.Abi.{arg, is_zero, is_error}

-- The exception hook with the addresses of the two labels, where `test_hook_active` is set.
unfoldable pub do_unhandled_exception :
    (hook_fault hook_fixup : ℕ) (test_hook_active : Bool)
    → CpuRegs
    → Report
    → (Bool × CpuRegs) × Report
do_unhandled_exception hook_fault hook_fixup test_hook_active regs r =
    let unexpected =
      xtf_failure
        (message "Fail: Expected fault at %p, got %p\n" (ptr hook_fault [] ∷ ptr regs.ip [] ∷ []))
        r in
    if not test_hook_active
    then ((false, regs), r)
    else if not (regs.ip == hook_fault)
    then ((false, regs), unexpected)
    else ((true, record regs { ip = hook_fixup }), r)

-- It returns whether it was run, which the variable of the source is for.
unfoldable pub test_extable_handler_handler : CpuRegs → Entry → Bool × (Bool × CpuRegs)
test_extable_handler_handler regs ex = (true, (true, record regs { ip = ex.fixup }))

-- `domid_str[i]` from an index on: the characters are those up to the NUL.
unfoldable pub only_digits : List ℕ → Bool
only_digits [] = true
only_digits (c ∷ s) = let rest = only_digits s in if ltb c b'0' || ltb b'9' c then false else rest

-- what test_xenstore() does with the string, without its NUL
unfoldable pub check_domid : {W : Type 0} → Option (List ℕ) → Test W (Unit {0})
check_domid none = failure (message "Fail: No domid value returned\n" [])
check_domid (some []) = failure (message "Fail: domid value empty\n" [])
check_domid (some (c ∷ s)) =
    if only_digits (c ∷ s)
    then say "  Found domid %s\n" (str (some (c ∷ s)) ∷ [])
    else failure (message "Fail: unexpected domid value '%s'\n" (str (some (c ∷ s)) ∷ []))

-- a result of strcmp() that counts as true
unfoldable pub differs : Run ℤ → Run Bool
differs (ok c) = ok (not (is_zero c))
differs fault = fault
differs out_of_fuel = out_of_fuel

-- `rc == len`
abbrev is_length : ℕ → ℤ → Bool
is_length len (pos rc) = rc == len
is_length len (negsuc rc) = false

-- one half of test_vsnprintf_crlf_one(): the result and the buffer of four bytes of one call, with
-- the messages for a wrong length and a wrong text; and whether the function goes on
unfoldable pub expect_text :
    (fmt : List ℕ) (bad_length bad_text : String) (len : ℕ) (text : List ℕ)
    → ℤ × List ℕ
    → Report
    → Run (Bool × Report)
expect_text fmt bad_length bad_text len text (rc, buf) r =
    let wrong : Run (Bool × Report) =
      ok (false, xtf_failure (message bad_length (str (some fmt) ∷ arg rc ∷ [])) r) in
    let mangled : Bool × Report =
      (false, xtf_failure (message bad_text (str (some fmt) ∷ int 4 ∷ ptr 0 buf ∷ [])) r) in
    let compared = differs (strcmp buf text) >>= λ d. ok (if d then mangled else (true, r)) in
    if not (is_length len rc) then wrong else compared

-- `buf` is what the four bytes are at first.
unfoldable pub test_vsnprintf_crlf_one :
    ArchHook → (buf : List ℕ) → (fmt : List ℕ) → List Arg → Report → Run Report
test_vsnprintf_crlf_one arch buf fmt args r =
    vsnprintf_internal arch buf 4 fmt args no_flags >>= λ plain.
    expect_text fmt "Fail: '%s', expected length 1, got %d\n"
      "Fail: '%s', expected \"\\n\", got %*ph\n" 1 (codes "\n" ++ 0 ∷ []) plain r
    >>= λ first.
        let second =
          vsnprintf_internal arch plain.1 4 fmt args (record no_flags { lf_to_crlf = true })
          >>= λ crlf.
              expect_text fmt "Fail: '%s', expected length 2, got %d\n"
                "Fail: '%s', expected \"\\r\\n\", got %*ph\n" 2 (b'\r' ∷ b'\n' ∷ 0 ∷ []) crlf
                first.1
              >>= λ last. ok last.1 in
        if first.0 then second else ok first.1

-- The buffer of each call is a part of the stack, with whatever is there.
unfoldable pub test_vsnprintf_crlf : ArchHook → (one two three : List ℕ) → Report → Run Report
test_vsnprintf_crlf arch one two three r =
    test_vsnprintf_crlf_one arch one (codes "\n") []
      (printk "Test: vsnprintf() with CRLF expansion\n" [] r)
    >>= λ r. test_vsnprintf_crlf_one arch two (codes "%c") (int b'\n' ∷ []) r >>= λ r.
        test_vsnprintf_crlf_one arch three (codes "%s") (str (some (codes "\n" ++ 0 ∷ [])) ∷ []) r

-- what is behind it, with the report
abbrev pub with_report : {X : Type 0} → Run Report → (Report → X) → Run X
with_report r k = r >>= λ r. ok (k r)
