-- ===== src/Suite.antt =====
-- What the programs under tests/ have in common: a state of the machine and a report, instructions
-- whose faults ex_record_fault_eax() or ex_record_fault_edi() records, and loops over tables.
pub mod Effect
pub mod Faults
pub mod Xsa278
pub mod Umip
pub mod Invlpg
pub mod Argo
pub mod HeapsortTest
pub mod Selftest
pub mod Swint
pub mod CpuidFaulting
use Prim.Native.String.{String}
use xtf.Base.{ℕ, ◌==◌, not, Bool, true, false, if◌then◌else◌, List, [], ◌∷◌, Option, none, some}
use xtf.Base.Text.{codes}
use xtf.Printf.Parse.{Arg}
use xtf.Extable.{CpuRegs, Entry}
use xtf.Traps.{exinfo, ex_record_fault_eax, ex_record_fault_edi}
use xtf.Report.{Message, Report, printk, xtf_success, xtf_warning, xtf_skip, xtf_error, xtf_failure}

-- A part of a test: it changes the machine `W` and the report, and returns a value.
abbrev pub Test : Type 0 → Type 0 → Type 0
Test W A = W × Report → A × (W × Report)

infixl 5 ◌>>=◌ ◌>>◌
unfoldable pub ◌>>=◌ : {W A B : Type 0} → Test W A → (A → Test W B) → Test W B
(m >>= k) s = k (m s).0 (m s).1

abbrev pub ◌>>◌ : {W B : Type 0} → Test W (Unit {0}) → Test W B → Test W B
m >> k = m >>= λ _. k

unfoldable pub return : {W A : Type 0} → A → Test W A
return a s = (a, s)

-- what the machine does
unfoldable pub run : {W A : Type 0} → (W → A × W) → Test W A
run f s = ((f s.0).0, ((f s.0).1, s.1))

-- what the test says
unfoldable pub report : {W : Type 0} → (Report → Report) → Test W (Unit {0})
report f s = (tt, (s.0, f s.1))

-- a message with its arguments
abbrev pub message : String → List Arg → Message
message fmt args = some (codes fmt, args)

abbrev pub say : {W : Type 0} → String → List Arg → Test W (Unit {0})
say fmt args = report (printk fmt args)

abbrev pub success : {W : Type 0} → Message → Test W (Unit {0})
success m = report (xtf_success m)

abbrev pub skip : {W : Type 0} → Message → Test W (Unit {0})
skip m = report (xtf_skip m)

abbrev pub error : {W : Type 0} → Message → Test W (Unit {0})
error m = report (xtf_error m)

abbrev pub failure : {W : Type 0} → Message → Test W (Unit {0})
failure m = report (xtf_failure m)

-- an `if` without `else`
unfoldable pub when : {W : Type 0} → Bool → Test W (Unit {0}) → Test W (Unit {0})
when c m s = if c then m s else (tt, s)

-- a `for` loop over the elements of an array
unfoldable pub for_each : {W A : Type 0} → List A → (A → Test W (Unit {0})) → Test W (Unit {0})
for_each [] body s = (tt, s)
for_each (x ∷ xs) body s = for_each xs body (body x s).1

-- The vector and the error code of the exception that an instruction raises, or none.
abbrev pub Fault : Type 0
Fault = Option (ℕ × ℕ)

-- the frame of an exception, with the registers that do not matter here at 0
abbrev frame : ℕ → ℕ → CpuRegs
frame vec ec = record {
  ax = 0;
  cx = 0;
  dx = 0;
  di = 0;
  ip = 0;
  cs = 0;
  entry_vector = vec;
  error_code = ec;
}

abbrev fixup : Entry
fixup = record { fault = 0; fixup = 0; handler = 1 }

-- `fault`, which is 0 before the instruction, in a stub that binds it to eax
unfoldable pub record_eax : Fault → ℕ
record_eax none = 0
record_eax (some (vec, ec)) = (ex_record_fault_eax (frame vec ec) fixup).1.ax

-- and in a stub that binds it to edi
unfoldable pub record_edi : Fault → ℕ
record_edi none = 0
record_edi (some (vec, ec)) = (ex_record_fault_edi (frame vec ec) fixup).1.di

abbrev pub exc_ud : ℕ
exc_ud = 6

abbrev pub exc_gp : ℕ
exc_gp = 13

abbrev pub exc_pf : ℕ
exc_pf = 14

-- `EXINFO_SYM(exc, ec)`
abbrev pub exinfo_sym : ℕ → ℕ → ℕ
exinfo_sym exc ec = exinfo exc ec

-- What the processor makes of the instructions `I`: in user mode or not, and behind the prefix that
-- forces their emulation or not.
pub record Cpu (W I : Type 0) : Type 0 where
  pub execute : (user fep : Bool) → I → W → Fault × W

-- a function that executes one instruction and returns its fault
unfoldable pub stub : {W : Type 0} → (record_fault : Fault → ℕ) → (W → Fault × W) → Test W ℕ
stub record_fault insn = run λ w. (record_fault (insn w).0, (insn w).1)

-- `if ( enabled && stub() != exp ) xtf_failure(fmt)`
abbrev pub expect : {W : Type 0} → Bool → Test W ℕ → ℕ → Message → Test W (Unit {0})
expect enabled stub exp m = when enabled (stub >>= λ fault. when (not (fault == exp)) (failure m))

-- mov to and from %cr4. A write where no fault is expected has the fault as a panic, which is left
-- to the machine.
pub record Cr4 (W : Type 0) : Type 0 where
  pub read_cr4 : W → ℕ
  pub write_cr4 : ℕ → W → W
  pub mov_cr4 : ℕ → W → Fault × W

-- whether the write faults
unfoldable pub write_cr4_safe : {W : Type 0} → Cr4 W → ℕ → Test W Bool
write_cr4_safe cr4 v = stub record_edi (cr4.mov_cr4 v) >>= λ fault. return (not (fault == 0))
