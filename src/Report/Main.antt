-- ===== src/Report/Main.antt =====
-- What xtf_main() prints at its end.
use xtf.Base.{
  ℕ, ◌≡◌, refl, ◌∙◌, sym, ap, ◌==◌, max, Bool, true, false, ◌||◌, if◌then◌else◌, List, [], ◌∷◌,
  ◌++◌, append_assoc, append-nil, arith, Bool-cases, inl, inr,
}
use xtf.Base.Text.{codes}
use xtf.Printf.Parse.{Arg}
use xtf.Report.{
  TestStatus, value, ShutdownReason, Event, Report, initial, call, print_message, set_status,
  xtf_error, result_line, settle, report_result, xtf_report_status, xtf_status_reported, panic,
  power_off, xtf_exit, xtf_main, run_test, banner,
}
use xtf.Report.Verdict.{Statement, make_all, worst, warned, make_all-status}

-- what was called by `r` was called by `later` too
IsLater : Report → Report → Type 0
IsLater r later = (more : List Event) × (later.trace ≡ r.trace ++ more)

call-IsLater : (e : Event) (r later : Report) → IsLater r later → IsLater r (call e later)
unfolding call IsLater
call-IsLater e r later (more, q) =
    (more ++ e ∷ [], ap (λ t. t ++ e ∷ []) q ∙ append_assoc r.trace more (e ∷ []))

refl-IsLater : (r : Report) → IsLater r r
unfolding IsLater
refl-IsLater r = ([], sym (append-nil r.trace))

module _ (stops : ShutdownReason → Bool) where
  panic-IsLater : (fmt : List ℕ) (args : List Arg) (r : Report) → IsLater r (panic stops fmt args r)
  unfolding panic
  panic-IsLater fmt args r =
      let down = call-IsLater _ r _ (
        call-IsLater _ r _
          (call-IsLater _ r _ (call-IsLater _ r _ (call-IsLater _ r _ (refl-IsLater r))))) in
      elim (Bool-cases (stops ShutdownReason.crash)) [
        | inl stop ↦ rw stop down
        | inr back ↦ rw back (call-IsLater _ r _ down)
      ]

  power_off-trace :
      (r : Report)
      → (after : List Event) × ((power_off stops r).trace
          ≡ r.trace ++ Event.shutdown ShutdownReason.poweroff ∷ after)
        × (stops ShutdownReason.poweroff ≡ true → after ≡ [])
  unfolding call IsLater
  power_off-trace r = elim (Bool-cases (stops ShutdownReason.poweroff)) [
    | inl stop ↦ ([], rw stop refl, λ _. refl)
    | inr back ↦
        let (more, e) =
          panic-IsLater (codes "xtf_exit(): hypercall_shutdown(SHUTDOWN_poweroff) returned\n") []
            (call (Event.shutdown ShutdownReason.poweroff) r) in
        (
          more,
          rw back (e ∙ append_assoc r.trace (Event.shutdown ShutdownReason.poweroff ∷ []) more),
          λ stop. absurd (ground (arith, stop, back)),
        )
  ]

  -- the calls that xtf_exit() ends with
  xtf_exit-trace :
      (r : Report)
      → (after : List Event) × ((xtf_exit stops r).trace
          ≡ (settle r).trace
            ++ result_line (settle r).status (settle r).warnings
              ∷ Event.shutdown ShutdownReason.poweroff
              ∷ after)
        × (stops ShutdownReason.poweroff ≡ true → after ≡ [])
  unfolding xtf_exit xtf_report_status call
  xtf_exit-trace r =
      let (after, e, f) = power_off-trace (report_result (settle r)) in
      (
        after,
        e
            ∙ append_assoc (settle r).trace (result_line (settle r).status (settle r).warnings ∷ [])
                (Event.shutdown ShutdownReason.poweroff ∷ after),
        f,
      )

settle-fields :
    (s : TestStatus) (w : Bool) (t : List Event)
    → (value (settle (record { status = s; warnings = w; trace = t })).status
        ≡ (if value s == 0 then 3 else value s))
      × ((settle (record { status = s; warnings = w; trace = t })).warnings ≡ w)
unfolding settle xtf_error print_message set_status call
settle-fields TestStatus.running w t = (refl, refl)
settle-fields TestStatus.success w t = (refl, refl)
settle-fields TestStatus.skip w t = (refl, refl)
settle-fields TestStatus.error w t = (refl, refl)
settle-fields TestStatus.failure w t = (refl, refl)

settle_lem :
    (r : Report)
    → (value (settle r).status ≡ (if value r.status == 0 then 3 else value r.status))
      × ((settle r).warnings ≡ r.warnings)
settle_lem r = settle-fields r.status r.warnings r.trace

-- what the framework hears of a test: test_main() is called only if test_setup() reports no status
pub heard : List Statement → List Statement → List Statement
heard setup main = if worst setup == 0 then setup ++ main else setup

worst-append : (s t : List Statement) → worst (s ++ t) ≡ max (worst s) (worst t)
worst-append [] t = omega arith
worst-append (c ∷ s) t = omega (arith, worst-append s t)

warned-append : (s t : List Statement) → warned (s ++ t) ≡ (warned t || warned s)
warned-append [] t = ground arith
warned-append (c ∷ s) t = ground (arith, warned-append s t)

run_test-heard :
    (setup main : List Statement) (r : Report)
    → value r.status ≡ 0
    → r.warnings ≡ false
    → (value (run_test (make_all setup) (make_all main) r).status ≡ worst (heard setup main))
      × ((run_test (make_all setup) (make_all main) r).warnings ≡ warned (heard setup main))
unfolding run_test xtf_status_reported heard
run_test-heard setup main r none_yet quiet =
    let (e, f) = make_all-status setup r in
    let s : value (make_all setup r).status ≡ worst setup = omega (arith, e) in
    let (g, h) = make_all-status main (make_all setup r) in
    elim (Bool-cases (worst setup == 0)) [
      | inl silent ↦
          rw (s, silent)
            (
              omega (arith, worst-append setup main, s, g),
              ground (arith, warned-append setup main, f, h),
            )
      | inr spoke ↦ rw (s, spoke) (s, ground (arith, f))
    ]

-- how a test ends
pub record Verdict (heard : List Statement) (stops : ShutdownReason → Bool) (trace : List Event)
    : Type 0 where
  before : List Event
  status : TestStatus
  after : List Event
  ends :
      trace
      ≡ before ++ result_line status (warned heard) ∷ Event.shutdown ShutdownReason.poweroff ∷ after
  most_severe : value status ≡ (if worst heard == 0 then 3 else worst heard)
  stopped : stops ShutdownReason.poweroff ≡ true → after ≡ []

-- For a test whose two functions make the statements `setup` and `main`, xtf_main() ends by printing
-- the most severe status of those that the framework hears, or ERROR if there is none, with a note of
-- warnings if there was one and the status is SUCCESS, and then by the request to power off; if Xen
-- does not return from that request, nothing follows.
pub xtf_main_lem :
    (stops : ShutdownReason → Bool) (environment_description test_title : List ℕ)
    (setup main : List Statement)
    → Verdict
        (heard setup main)
        stops
        (xtf_main stops environment_description test_title
          (make_all setup)
          (make_all main)
          initial).trace
unfolding xtf_main banner call
xtf_main_lem stops env title setup main =
    let r = run_test (make_all setup) (make_all main) (banner env title initial) in
    let (after, e, f) = xtf_exit-trace stops r in
    let (g, h) = run_test-heard setup main (banner env title initial) refl refl in
    let (k, l) = settle_lem r in
    record {
      before = (settle r).trace;
      status = (settle r).status;
      after = after;
      ends =
          e
          ∙ ap
              (λ w.
                (settle r).trace
                ++ result_line (settle r).status w ∷ Event.shutdown ShutdownReason.poweroff ∷ after)
              (l ∙ h);
      most_severe = k ∙ ap (λ v. if v == 0 then 3 else v) g;
      stopped = f;
    }
