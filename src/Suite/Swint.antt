-- ===== src/Suite/Swint.antt =====
-- tests/swint-emulation, main.c and the stubs of lowlevel.S, in the 64 bit build. The machine comes with
-- the three entries of the IDT that the test changes.
pub mod Rounds
pub mod Rules
pub mod Verdict
use Prim.Native.String.{String}
use xtf.Base.{
  ℕ, ◌+◌, ◌*◌, ◌/◌, ◌%◌, ◌^◌, ◌==◌, not, ◌&&◌, Bool, true, false, if◌then◌else◌, List, [], ◌∷◌,
  none,
}
use xtf.Printf.Parse.{int, ptr}
use xtf.Report.{literal}
use xtf.Extable.{CpuRegs, Entry}
use xtf.Traps.{exinfo, Handler, ex_record_fault_eax}
use xtf.Suite.{
  Test, ◌>>=◌, ◌>>◌, return, run, say, success, skip, failure, when, message, exinfo_sym, exc_ud,
  exc_gp,
}

pub data Opcode : Type 0 where
  int3 int_0x3 icebp int_0x1 into : Opcode

-- `p` and `dpl` of a gate
pub record Gate : Type 0 where
  pub p : Bool
  pub dpl : ℕ

-- the entries of X86_EXC_DB, X86_EXC_BP and X86_EXC_OF
pub record Idt : Type 0 where
  pub db : Gate
  pub bp : Gate
  pub of_gate : Gate

abbrev pub World : Type 0 → Type 0
World W = W × Idt

-- Where an exception is raised with its vector and error code: at the instruction, or behind it.
pub data Raised : Type 0 where
  nothing : Raised
  fault trap : (vec ec : ℕ) → Raised

-- what the processor makes of an instruction, in user mode or not, with the two prefixes or not
pub record Processor (W : Type 0) : Type 0 where
  pub execute : (user fep addr : Bool) → Opcode → World W → Raised × World W

-- EXINFO_AVAIL0 is a bit that EXINFO() leaves clear.
abbrev pub exinfo_trap : ℕ
exinfo_trap = 2 ^ 24

unfoldable pub ex_record_trap_eax : Handler
ex_record_trap_eax regs ex = (
  true,
  record regs { ax = exinfo regs.entry_vector regs.error_code + exinfo_trap; ip = ex.fixup },
)

-- the frame of an exception, with the registers that do not matter here at 0
abbrev frame : ℕ → ℕ → CpuRegs
frame vec ec = record {
  ax = 0;
  cx = 0;
  dx = 0;
  di = 0;
  ip = 0;
  cs = 0;
  entry_vector = vec;
  error_code = ec;
}

abbrev entry : Entry
entry = record { fault = 0; fixup = 0; handler = 1 }

-- Each stub has an entry of the exception table at its instruction and one behind it.
unfoldable pub recorded : Raised → ℕ
recorded Raised.nothing = 0
recorded (Raised.fault vec ec) = (ex_record_fault_eax (frame vec ec) entry).1.ax
recorded (Raised.trap vec ec) = (ex_record_trap_eax (frame vec ec) entry).1.ax

module _ {W : Type 0} (cpu : Processor W) where
  -- GEN_SINGLE
  unfoldable pub stub : (user fep addr : Bool) → Opcode → Test (World W) ℕ
  stub user fep addr insn =
      run λ s. (recorded (cpu.execute user fep addr insn s).0, (cpu.execute user fep addr insn s).1)

  -- The elements of `fn` or `user_fn`, with their indices: plain, _A, _F and _FA.
  unfoldable pub fn : Bool → Opcode → List (ℕ × Test (World W) ℕ)
  fn user insn =
      (0, stub user false false insn)
      ∷ (1, stub user false true insn)
      ∷ (2, stub user true false insn)
      ∷ (3, stub user true true insn)
      ∷ []

abbrev pub insn_name : Opcode → String
insn_name Opcode.int3 = "int3"
insn_name Opcode.int_0x3 = "int $3"
insn_name Opcode.icebp = "icebp"
insn_name Opcode.int_0x1 = "int $1"
insn_name Opcode.into = "into"

abbrev sign : Bool → ℕ
sign b = if b then b'+' else b'-'

abbrev kind : ℕ → String
kind info = if info / exinfo_trap % 2 == 1 then "trap" else "fault"

-- a round of the loop, without its last lines
unfoldable pub compare_one : {W : Type 0} → ℕ → ℕ × Test (World W) ℕ → Test (World W) (Unit {0})
compare_one exp (i, fn) = do
  got ← fn
  when (not (exp == got)) (
      failure (
        message "    Fail (Force%c, Addr%c): expected %pe %s, got %pe %s\n" (
          int (sign (i % 2 == 1))
          ∷ int (sign (i / 2 % 2 == 1))
          ∷ ptr exp []
          ∷ literal (kind exp)
          ∷ ptr got []
          ∷ literal (kind got)
          ∷ [])))

-- the loop, which stops behind index 1 without the forced emulation
unfoldable pub compare_all :
    {W : Type 0}
    → (xtf_has_fep : Bool) → ℕ
    → List (ℕ × Test (World W) ℕ)
    → Test (World W) (Unit {0})
compare_all xtf_has_fep exp [] = return tt
compare_all xtf_has_fep exp (x ∷ xs) = do
  compare_one exp x
  let rest = compare_all xtf_has_fep exp xs
  if (x.0 == 1) && not xtf_has_fep then return tt else rest

unfoldable pub set_idt_entries_present : {W : Type 0} → Bool → Test (World W) (Unit {0})
set_idt_entries_present present = run λ s. (
  tt,
  (
    s.0,
    record {
      db = record s.1.db { p = present };
      bp = record s.1.bp { p = present };
      of_gate = record s.1.of_gate { p = present };
    },
  ),
)

unfoldable pub set_idt_entries_dpl : {W : Type 0} → ℕ → Test (World W) (Unit {0})
set_idt_entries_dpl dpl = run λ s. (
  tt,
  (
    s.0,
    record {
      db = record s.1.db { dpl = dpl };
      bp = record s.1.bp { dpl = dpl };
      of_gate = record s.1.of_gate { dpl = dpl };
    },
  ),
)

-- X86_EXC_DB, X86_EXC_BP and X86_EXC_NP
abbrev pub exc_db : ℕ
exc_db = 1

abbrev pub exc_bp : ℕ
exc_bp = 3

abbrev pub exc_np : ℕ
exc_np = 11

-- `TRAP(V)` and `FAULT_EC(V, E)`, and the latter with EXT; of an error code, bit 1 is X86_EC_IDT and
-- bit 0 is X86_EC_EXT.
abbrev pub trap_sym : ℕ → ℕ
trap_sym v = exinfo_sym v 0 + exinfo_trap

abbrev pub fault_ec : (v e : ℕ) → ℕ
fault_ec v e = exinfo_sym v (e * 2 ^ 3 + 2)

abbrev pub fault_ec_ext : (v e : ℕ) → ℕ
fault_ec_ext v e = exinfo_sym v (e * 2 ^ 3 + 2 + 1)

module _ {W : Type 0} (cpu : Processor W) (xtf_has_fep : Bool) where
  unfoldable pub test_insn : Bool → Opcode → ℕ → Test (World W) (Unit {0})
  test_insn user insn exp = do
    say "  Testing %s\n" (literal (insn_name insn) ∷ [])
    compare_all xtf_has_fep exp (fn cpu user insn)

  -- the five tests of one set of permissions
  unfoldable pub test_insns :
      Bool → (of_int3 of_int_0x3 of_icebp of_int_0x1 of_into : ℕ) → Test (World W) (Unit {0})
  test_insns user of_int3 of_int_0x3 of_icebp of_int_0x1 of_into = do
    test_insn user Opcode.int3 of_int3
    test_insn user Opcode.int_0x3 of_int_0x3
    test_insn user Opcode.icebp of_icebp
    test_insn user Opcode.int_0x1 of_int_0x1
    test_insn user Opcode.into of_into

  abbrev pub all_ok : Bool → Test (World W) (Unit {0})
  all_ok user =
      test_insns user (trap_sym exc_bp) (trap_sym exc_bp) (trap_sym exc_db) (trap_sym exc_db)
        (exinfo_sym exc_ud 0)

  abbrev pub not_present : Bool → Test (World W) (Unit {0})
  not_present user = do
    set_idt_entries_present false
    test_insns user (fault_ec exc_np exc_bp) (fault_ec exc_np exc_bp) (fault_ec_ext exc_np exc_db)
        (fault_ec exc_np exc_db) (exinfo_sym exc_ud 0)
    set_idt_entries_present true

  unfoldable pub cpl3_tests : Test (World W) (Unit {0})
  cpl3_tests = do
    say "Test cpl3: all perms ok\n" []
    all_ok true
    say "Test cpl3: p=0\n" []
    not_present true
    say "Test cpl3: dpl=0\n" []
    set_idt_entries_dpl 0
    test_insns true (fault_ec exc_gp exc_bp) (fault_ec exc_gp exc_bp) (trap_sym exc_db)
        (fault_ec exc_gp exc_db) (exinfo_sym exc_ud 0)
    set_idt_entries_dpl 3

  unfoldable pub cpl0_tests : Test (World W) (Unit {0})
  cpl0_tests = do
    say "Test cpl0: all perms ok\n" []
    all_ok false
    say "Test cpl0: p=0\n" []
    not_present false

  unfoldable pub swint_main : Test (World W) (Unit {0})
  swint_main = do
    when (not xtf_has_fep)
        (skip (message "FEP support not detected - some tests will be skipped\n" []))
    set_idt_entries_present true
    set_idt_entries_dpl 3
    cpl0_tests
    cpl3_tests
    success none
