-- ===== src/Tests/Report.antt =====
-- common/report.c and common/setup.c at concrete inputs.
use xtf.Base.{◌≡◌, ◌||◌, true, Bool, List, [], ◌∷◌, none, max}
use xtf.Report.{ShutdownReason, value, initial, xtf_main}
use xtf.Report.Verdict.{Statement, make_all, worst, warned, make_all-status}
use xtf.Report.Main.{Verdict, heard, xtf_main_lem}

abbrev warns : List Statement
warns = Statement.warning none ∷ []

abbrev fails : List Statement
fails = Statement.success none ∷ Statement.failure none ∷ Statement.skip none ∷ []

abbrev always : ShutdownReason → Bool
always reason = true

make_all-status_example :
    (value (make_all fails initial).status ≡ max (worst fails) (value initial.status))
    × ((make_all fails initial).warnings ≡ (warned fails || initial.warnings))
make_all-status_example = make_all-status fails initial

xtf_main_lem_example :
    Verdict
      (heard warns fails)
      always
      (xtf_main always
        (b'P' ∷ 0 ∷ [])
        (b'T' ∷ 0 ∷ [])
        (make_all warns)
        (make_all fails)
        initial).trace
xtf_main_lem_example = xtf_main_lem always (b'P' ∷ 0 ∷ []) (b'T' ∷ 0 ∷ []) warns fails
