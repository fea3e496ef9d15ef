-- ===== src/Tests/Traps.antt =====
-- arch/x86/traps.c and arch/x86/extable.c at concrete inputs.
use xtf.Base.{ℕ, false, Bool}
use xtf.Extable.{CpuRegs}
use xtf.Traps.{Handler, ex_record_fault_eax, do_exception}
use xtf.Traps.Recovery.{Handled, do_exception_lem}
use xtf.Tests.Sort.{sorted, sorted-IsSorted}

-- a #GP at an address
abbrev gp_at : ℕ → CpuRegs
gp_at ip = record {
  ax = 1;
  cx = 2;
  dx = 3;
  di = 4;
  ip = ip;
  cs = 0xe008;
  entry_vector = 13;
  error_code = 24;
}

abbrev handlers : ℕ → Handler
handlers address = ex_record_fault_eax

abbrev no_hook : CpuRegs → Bool × CpuRegs
no_hook regs = (false, regs)

do_exception_lem_example :
    Handled handlers no_hook 0 sorted (gp_at 30) (do_exception handlers no_hook 0 sorted (gp_at 30))
do_exception_lem_example = do_exception_lem handlers no_hook 0 sorted (gp_at 30) sorted-IsSorted
