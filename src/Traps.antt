-- ===== src/Traps.antt =====
-- arch/x86/extable.c, the macro EXINFO of arch/x86/include/arch/exinfo.h, and arch/x86/traps.c.
pub mod Recovery
use Prim.Native.String.{String}
use xtf.Base.{
  ℕ, ◌+◌, ◌-◌, ◌*◌, ◌%◌, ◌^◌, ◌==◌, not, Bool, true, false, if◌then◌else◌, List, [], ◌∷◌, Option,
  some, none, get_elem?,
}
use xtf.Base.Text.{codes}
use xtf.Base.Run.{Run, ok, or_fault, ◌>>=◌}
use xtf.Printf.Parse.{Arg, int, ptr}
use xtf.Extable.{CpuRegs, Entry, search_extable}

-- The fields do not overlap, so that `|` is a sum.
unfoldable pub exinfo : ℕ → ℕ → ℕ
exinfo vec ec = 2 ^ 31 + vec % 256 * 2 ^ 16 + ec % 2 ^ 16

-- A handler returns whether the fault is handled, and changes the registers.
abbrev pub Handler : Type 0
Handler = CpuRegs → Entry → Bool × CpuRegs

unfoldable pub ex_record_fault_eax : Handler
ex_record_fault_eax regs ex =
    (true, record regs { ax = exinfo regs.entry_vector regs.error_code; ip = ex.fixup })

unfoldable pub ex_record_fault_edi : Handler
ex_record_fault_edi regs ex =
    (true, record regs { di = exinfo regs.entry_vector regs.error_code; ip = ex.fixup })

unfoldable pub ex_rdmsr_safe : Handler
ex_rdmsr_safe regs ex = (true, record regs { ax = 0; dx = 0; cx = 2 ^ 32 - 1; ip = ex.fixup })

unfoldable pub ex_wrmsr_safe : Handler
ex_wrmsr_safe regs ex = (true, record regs { cx = 2 ^ 32 - 1; ip = ex.fixup })

-- do_exception() returns to the interrupted code with these registers, or calls panic().
pub data Outcome : Type 0 where
  resume : CpuRegs → Outcome
  panics : List ℕ → List Arg → Outcome

-- an address as an argument that is only printed
abbrev address : ℕ → Arg
address a = ptr a []

-- `Still unresolved?`
unfoldable pub give_up : (cr2 : ℕ) → CpuRegs → Outcome
give_up cr2 regs =
    let exc = exinfo regs.entry_vector regs.error_code in
    if regs.entry_vector == 14
    then Outcome.panics (codes "Unhandled exception at %04x:%p\nVec %u %pe %%cr2 %p\n")
        (int regs.cs ∷ address regs.ip ∷ int regs.entry_vector ∷ address exc ∷ address cr2 ∷ [])
    else Outcome.panics (codes "Unhandled exception at %04x:%p\nVec %u %pe\n")
        (int regs.cs ∷ address regs.ip ∷ int regs.entry_vector ∷ address exc ∷ [])

-- The functions that are there where a test does not define its own: no hook, and a panic with the text for a
-- system call, a sysenter and an event.
unfoldable pub weak_do_unhandled_exception : CpuRegs → Bool × CpuRegs
weak_do_unhandled_exception regs = (false, regs)

unfoldable pub do_syscall : CpuRegs → Outcome
do_syscall regs = Outcome.panics (codes "Unhandled syscall\n") []

unfoldable pub do_sysenter : CpuRegs → Outcome
do_sysenter regs = Outcome.panics (codes "Unhandled sysenter\n") []

unfoldable pub do_evtchn : CpuRegs → Outcome
do_evtchn regs = Outcome.panics (codes "Unhandled evtchn upcall\n") []

-- What exec_user_*() runs a function with: the selectors, and two masks for the flags. X86_EFLAGS_IF is bit 9.
pub record ExecUser : Type 0 where
  pub exec_user_cs : ℕ
  pub exec_user_ss : ℕ
  pub exec_user_efl_and_mask : ℕ
  pub exec_user_efl_or_mask : ℕ

abbrev pub exec_user_defaults : (config_pv : Bool) (user_cs user_ds : ℕ) → ExecUser
exec_user_defaults config_pv user_cs user_ds = record {
  exec_user_cs = user_cs;
  exec_user_ss = user_ds;
  exec_user_efl_and_mask = if config_pv then 2 ^ 64 - 1 - 2 ^ 9 else 2 ^ 64 - 1;
  exec_user_efl_or_mask = 0;
}

-- The functions that the program links in: the handler at an address, do_unhandled_exception(), which
-- a test may define, and read_cr2().
module _ (handler_at : ℕ → Handler) (do_unhandled_exception : CpuRegs → Bool × CpuRegs)
    (read_cr2 : ℕ) where
  -- what an entry that was found makes of the exception
  unfoldable pub redirect : Entry → CpuRegs → Bool × CpuRegs
  redirect ex regs =
      if not (ex.handler == 0)
      then handler_at ex.handler regs ex
      else (true, record regs { ip = ex.fixup })

  unfoldable pub look_up : List Entry → CpuRegs → Option ℕ → Run (Bool × CpuRegs)
  look_up table regs none = ok (false, regs)
  look_up table regs (some i) = or_fault (get_elem? table i) >>= λ ex. ok (redirect ex regs)

  -- `Try the unhandled_exception() hook.`
  unfoldable pub try_hook : Bool × CpuRegs → Bool × CpuRegs
  try_hook (true, regs) = (true, regs)
  try_hook (false, regs) = do_unhandled_exception regs

  unfoldable pub conclude : Bool × CpuRegs → Outcome
  conclude (true, regs) = Outcome.resume regs
  conclude (false, regs) = give_up read_cr2 regs

  unfoldable pub do_exception : List Entry → CpuRegs → Run Outcome
  do_exception table regs = do
    ex ← search_extable table regs.ip
    safe ← look_up table regs ex
    ok (conclude (try_hook safe))
