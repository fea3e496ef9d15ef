-- ===== src/Report/Verdict.antt =====
-- The result that a test gets.
use xtf.Base.{
  ℕ, ◌≡◌, refl, ◌∙◌, ap, max, ltb, Bool, true, false, ◌||◌, List, [], ◌∷◌, some, none, arith,
  Bool-cases, inl, inr,
}
use xtf.Report.{
  TestStatus, value, Report, Message, call, print_message, set_status, xtf_success, xtf_warning,
  xtf_skip, xtf_error, xtf_failure,
}

-- what a test says of itself
pub data Statement : Type 0 where
  success warning skip error failure : Message → Statement

-- the function that it calls for that
abbrev make : Statement → Report → Report
make (Statement.success m) r = xtf_success m r
make (Statement.warning m) r = xtf_warning m r
make (Statement.skip m) r = xtf_skip m r
make (Statement.error m) r = xtf_error m r
make (Statement.failure m) r = xtf_failure m r

abbrev pub make_all : List Statement → Report → Report
make_all [] r = r
make_all (s ∷ test) r = make_all test (make s r)

abbrev severity : Statement → ℕ
severity (Statement.success m) = 1
severity (Statement.warning m) = 0
severity (Statement.skip m) = 2
severity (Statement.error m) = 3
severity (Statement.failure m) = 4

abbrev pub worst : List Statement → ℕ
worst [] = 0
worst (s ∷ test) = max (severity s) (worst test)

abbrev is_warning : Statement → Bool
is_warning (Statement.warning m) = true
is_warning s = false

abbrev pub warned : List Statement → Bool
warned [] = false
warned (s ∷ test) = is_warning s || warned test

value_of : Report → ℕ
value_of r = value r.status

print_message-status :
    (m : Message) (r : Report)
    → ((print_message m r).status ≡ r.status) × ((print_message m r).warnings ≡ r.warnings)
unfolding print_message call
print_message-status none r = (refl, refl)
print_message-status (some (f, a)) r = (refl, refl)

set_status_lem :
    (s : TestStatus) (r : Report)
    → (value (set_status s r).status ≡ max (value s) (value r.status))
      × ((set_status s r).warnings ≡ r.warnings)
unfolding set_status
set_status_lem s r = elim (Bool-cases (ltb (value r.status) (value s))) [
  | inl raised ↦ rw raised (ground arith, refl)
  | inr kept ↦ rw kept (ground arith, refl)
]

pub rise :
    (s : TestStatus) (m : Message) (r : Report)
    → (value (print_message m (set_status s r)).status ≡ max (value s) (value r.status))
      × ((print_message m (set_status s r)).warnings ≡ r.warnings)
rise s m r =
    let (e, f) = print_message-status m (set_status s r) in
    let (g, h) = set_status_lem s r in (ap value e ∙ g, f ∙ h)

make_lem :
    (s : Statement) (r : Report)
    → (value (make s r).status ≡ max (severity s) (value r.status))
      × ((make s r).warnings ≡ (is_warning s || r.warnings))
unfolding xtf_success xtf_warning xtf_skip xtf_error xtf_failure
make_lem (Statement.success m) r = rise TestStatus.success m r
make_lem (Statement.warning m) r =
    let (e, f) = print_message-status m (record r { warnings = true }) in
    (ap value e ∙ omega arith, f)
make_lem (Statement.skip m) r = rise TestStatus.skip m r
make_lem (Statement.error m) r = rise TestStatus.error m r
make_lem (Statement.failure m) r = rise TestStatus.failure m r

-- Whatever functions of report.c a test calls, in whatever order, afterwards the status is the most
-- severe one of those before and those reported, and a warning has occurred exactly if one had
-- before or xtf_warning() was called.
pub make_all-status :
    (test : List Statement) (r : Report)
    → (value (make_all test r).status ≡ max (worst test) (value r.status))
      × ((make_all test r).warnings ≡ (warned test || r.warnings))
make_all-status [] r = (omega arith, refl)
make_all-status (s ∷ test) r =
    let (e, f) = make_lem s r in
    let (g, h) = make_all-status test (make s r) in (omega (arith, e, g), ground (arith, f, h))
