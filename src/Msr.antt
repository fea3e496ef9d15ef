-- ===== src/Msr.antt =====
-- The consistency test of arch/x86/msr.c.
pub mod Detect
use Prim.Native.String.{String}
use xtf.Base.{ℕ, ◌==◌, not, Bool, true, false, if◌then◌else◌, List, [], ◌∷◌, some}
use xtf.Base.Text.{codes}
use xtf.Printf.Parse.{Arg, int, long}
use xtf.Report.{Report, xtf_failure}

-- The instructions, and the same under the emulator, which are what a processor does with the state `W`;
-- a read returns the value and the new state.
pub record Processor (W : Type 0) : Type 0 where
  pub wrmsr : (msr val : ℕ) → W → W
  pub rdmsr : (msr : ℕ) → W → ℕ × W
  pub force_wrmsr : (msr val : ℕ) → W → W
  pub force_rdmsr : (msr : ℕ) → W → ℕ × W

-- `struct xtf_msr_consistency_test_vals`
pub record TestVal : Type 0 where
  pub val : ℕ
  pub pred : Bool

-- `if ( val != t->vals[i].val ) xtf_failure(...)`
unfoldable pub check : String → (msr val expected : ℕ) → Report → Report
check fmt msr val expected r =
    if val == expected
    then r
    else xtf_failure (some (codes fmt, int msr ∷ long val ∷ long expected ∷ [])) r

module _ {W : Type 0} (cpu : Processor W) (msr : ℕ) where
  -- a real write and a real read
  unfoldable pub real_real : ℕ → W × Report → W × Report
  real_real v (w, r) =
      let (val, w) = cpu.rdmsr msr (cpu.wrmsr msr v w) in
      (
        w,
        check "Fail: MSR %08x, real write, real read\n  Got %016lx, Expected %016lx\n" msr val v r,
      )

  -- the emulated read behind it
  unfoldable pub real_emul : ℕ → W × Report → W × Report
  real_emul v (w, r) =
      let (val, w) = cpu.force_rdmsr msr w in
      (
        w,
        check "Fail: MSR %08x, real write, emul read\n  Got %016lx, Expected %016lx\n" msr val v r,
      )

  -- a round of the first loop, for a value whose predicate holds
  unfoldable pub real_round : Bool → ℕ → W × Report → W × Report
  real_round xtf_has_fep v s = let s = real_real v s in if not xtf_has_fep then s else real_emul v s

  unfoldable pub emul_real : ℕ → W × Report → W × Report
  emul_real v (w, r) =
      let (val, w) = cpu.rdmsr msr (cpu.force_wrmsr msr v w) in
      (
        w,
        check "Fail: MSR %08x, emul write, real read\n  Got %016lx, Expected %016lx\n" msr val v r,
      )

  unfoldable pub emul_emul : ℕ → W × Report → W × Report
  emul_emul v (w, r) =
      let (val, w) = cpu.force_rdmsr msr w in
      (
        w,
        check "Fail: MSR %08x, emul write, emul read\n  Got %016lx, Expected %016lx\n" msr val v r,
      )

  -- a round of the second loop
  unfoldable pub emul_round : ℕ → W × Report → W × Report
  emul_round v s = emul_emul v (emul_real v s)

  -- Either loop; `if ( !t->vals[i].pred ) continue;`
  unfoldable pub for_each : (ℕ → W × Report → W × Report) → List TestVal → W × Report → W × Report
  for_each round [] s = s
  for_each round (t ∷ vals) s =
      let done = round t.val s in for_each round vals (if not t.pred then s else done)

  unfoldable pub xtf_msr_consistency_test :
      (xtf_has_fep : Bool) → List TestVal → W × Report → W × Report
  xtf_msr_consistency_test xtf_has_fep vals s =
      let s = for_each (real_round xtf_has_fep) vals s in
      if not xtf_has_fep then s else for_each emul_round vals s
