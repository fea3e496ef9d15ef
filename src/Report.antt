-- ===== src/Report.antt =====
-- common/report.c, panic() of common/lib.c and xtf_main() of common/setup.c. What they print and how
-- they shut the machine down is a trace of calls.
pub mod Main
pub mod Verdict
use Prim.Native.String.{String}
use xtf.Base.{
  ℕ, ◌==◌, ltb, not, Bool, true, false, ◌&&◌, if◌then◌else◌, List, [], ◌∷◌, ◌++◌, Option, none,
  some,
}
use xtf.Base.Text.{codes}
use xtf.Printf.Parse.{Arg, str}

pub data TestStatus : Type 0 where
  running success skip error failure : TestStatus

-- the values of the enumerators
abbrev pub value : TestStatus → ℕ
value TestStatus.running = 0
value TestStatus.success = 1
value TestStatus.skip = 2
value TestStatus.error = 3
value TestStatus.failure = 4

pub data ShutdownReason : Type 0 where
  poweroff crash : ShutdownReason

-- vprintk() with its arguments, hypercall_shutdown() and arch_crash_hard()
pub data Event : Type 0 where
  vprintk : List ℕ → List Arg → Event
  shutdown : ShutdownReason → Event
  crash_hard : Event

-- the two static variables, and what was called so far
pub record Report : Type 0 where
  pub status : TestStatus
  pub warnings : Bool
  pub trace : List Event

abbrev pub initial : Report
initial = record { status = TestStatus.running; warnings = false; trace = [] }

-- A format string and its arguments; `none` is a null pointer for the format string.
abbrev pub Message : Type 0
Message = Option (List ℕ × List Arg)

unfoldable pub call : Event → Report → Report
call e r = record r { trace = r.trace ++ e ∷ [] }

abbrev pub printk : String → List Arg → Report → Report
printk fmt args r = call (Event.vprintk (codes fmt) args) r

-- `if ( fmt ) vprintk(fmt, args)`
unfoldable pub print_message : Message → Report → Report
print_message none r = r
print_message (some (fmt, args)) r = call (Event.vprintk fmt args) r

unfoldable pub set_status : TestStatus → Report → Report
set_status s r = if ltb (value r.status) (value s) then record r { status = s } else r

unfoldable pub xtf_success : Message → Report → Report
xtf_success m r = print_message m (set_status TestStatus.success r)

unfoldable pub xtf_warning : Message → Report → Report
xtf_warning m r = print_message m (record r { warnings = true })

unfoldable pub xtf_skip : Message → Report → Report
xtf_skip m r = print_message m (set_status TestStatus.skip r)

unfoldable pub xtf_error : Message → Report → Report
xtf_error m r = print_message m (set_status TestStatus.error r)

unfoldable pub xtf_failure : Message → Report → Report
xtf_failure m r = print_message m (set_status TestStatus.failure r)

abbrev pub status_to_str : TestStatus → String
status_to_str TestStatus.running = "RUNNING"
status_to_str TestStatus.success = "SUCCESS"
status_to_str TestStatus.skip = "SKIP"
status_to_str TestStatus.error = "ERROR"
status_to_str TestStatus.failure = "FAILURE"

-- a literal as an argument
abbrev pub literal : String → Arg
literal s = str (some (codes s ++ 0 ∷ []))

-- the call that prints the result
abbrev pub result_line : TestStatus → Bool → Event
result_line status warnings = Event.vprintk (codes "Test result: %s%s\n") (
    literal (status_to_str status)
    ∷ literal (if warnings && value status == 1 then " with warnings" else "")
    ∷ [])

-- an ERROR where the test did not report a status
unfoldable pub settle : Report → Report
settle r =
    if ltb (value r.status) 1
    then xtf_error (some (codes "Test did not report a status\n", [])) r
    else r

abbrev pub report_result : Report → Report
report_result r = call (result_line r.status r.warnings) r

unfoldable pub xtf_report_status : Report → Report
xtf_report_status r = report_result (settle r)

unfoldable pub xtf_status_reported : Report → Bool
xtf_status_reported r = not (value r.status == 0)

-- the three lines that xtf_main() starts with
unfoldable pub banner : (environment_description test_title : List ℕ) → Report → Report
banner environment_description test_title r =
    let r = printk "--- Xen Test Framework ---\n" [] r in
    let r = printk "Environment: %s\n" (str (some environment_description) ∷ []) r in
    printk "%s\n" (str (some test_title) ∷ []) r

-- `test_setup(); if ( !xtf_status_reported() ) test_main();`
unfoldable pub run_test : (test_setup test_main : Report → Report) → Report → Report
run_test test_setup test_main r =
    let r = test_setup r in if not (xtf_status_reported r) then test_main r else r

-- `stops` says of which shutdown requests Xen does not return.
module _ (stops : ShutdownReason → Bool) where
  unfoldable pub panic : List ℕ → List Arg → Report → Report
  panic fmt args r =
      let stars = printk "******************************\n" [] in
      let r = stars (call (Event.vprintk fmt args) (printk "PANIC: " [] (stars r))) in
      let r = call (Event.shutdown ShutdownReason.crash) r in
      if stops ShutdownReason.crash then r else call Event.crash_hard r

  abbrev pub power_off : Report → Report
  power_off r =
      let r = call (Event.shutdown ShutdownReason.poweroff) r in
      let returned =
        panic (codes "xtf_exit(): hypercall_shutdown(SHUTDOWN_poweroff) returned\n") [] r in
      if stops ShutdownReason.poweroff then r else returned

  unfoldable pub xtf_exit : Report → Report
  xtf_exit r = power_off (xtf_report_status r)

  -- Behind arch_setup(), with the strings and the two functions that a test defines.
  unfoldable pub xtf_main :
      (environment_description test_title : List ℕ) (test_setup test_main : Report → Report)
      → Report
      → Report
  xtf_main environment_description test_title test_setup test_main r =
      xtf_exit (run_test test_setup test_main (banner environment_description test_title r))
