-- ===== src/Suite/Effect.antt =====
-- Where a part of a test leads from a given machine: the value that it returns, the machine that it
-- leaves, and the value of the status that it raises the report to.
use xtf.Base.{
  ℕ, ◌≡◌, refl, sym, ◌==◌, ◌||◌, max, ◌&&◌, not, Bool, true, false, if◌then◌else◌, List, [], ◌∷◌,
  map, arith,
}
use xtf.Report.{
  Event, Report, Message, TestStatus, value, call, xtf_success, xtf_skip, xtf_error, xtf_failure,
}
use xtf.Report.Verdict.{rise}
use xtf.Suite.{Fault, stub, expect, failure, Test, ◌>>=◌, ◌>>◌, run, report, when, return, for_each}

-- `start` is the value of the status before.
pub data Step {W A : Type 0} (a : A) (w : W) (n start : ℕ) : A × (W × Report) → Type 0 where
  step : (r : Report) (raised : value r.status ≡ max n start) → Step a w n start (a, (w, r))

pub record Effect {W A : Type 0} (f : Test W A) (w : W) (a : A) (w' : W) (n : ℕ) : Type 0 where
  pub from : (r : Report) → Step a w' n (value r.status) (f (w, r))

zero_max : (n : ℕ) → n ≡ max 0 n
zero_max n = omega arith

weigh :
    {W B : Type 0} {b : B} {w' : W} {y : B × (W × Report)} (m n v u : ℕ)
    → Step b w' n u y
    → u ≡ max m v
    → Step b w' (max n m) v y
weigh m n v u (step r f) e = step r (omega (arith, e, f))

join :
    {W A B : Type 0} {a : A} {b : B} {w w' : W} (m n v : ℕ) {x : A × (W × Report)}
    (k : A → Test W B)
    → Step a w m v x
    → ((r : Report) → Step b w' n (value r.status) (k a (w, r)))
    → Step b w' (max n m) v (k x.0 x.1)
join m n v k (step r e) rest = weigh m n v _ (rest r) e

module _ {W : Type 0} where
  pub bind :
      {A B : Type 0} {a : A} {b : B} {w w' w'' : W} {m n : ℕ} {f : Test W A} (k : A → Test W B)
      → Effect f w a w' m
      → Effect (k a) w' b w'' n
      → Effect (f >>= k) w b w'' (max n m)
  unfolding ◌>>=◌
  bind {m} {n} k p q = record { from = λ r. join m n _ k (p.from r) q.from }

  pub of_run : {A : Type 0} (f : W → A × W) (w : W) → Effect (run f) w (f w).0 (f w).1 0
  unfolding run
  of_run f w = record { from = λ r. step r (zero_max _) }

  -- the same, with the machine's answer
  pub of_answer :
      {A : Type 0} (f : W → A × W) {w w' : W} {a : A} → f w ≡ (a, w') → Effect (run f) w a w' 0
  unfolding run
  of_answer f e = record { from = λ r. rw e (step r (zero_max _)) }

  pub of_return : {A : Type 0} (a : A) (w : W) → Effect (return a) w a w 0
  unfolding return
  of_return a w = record { from = λ r. step r (zero_max _) }

  pub of_printk : (e : Event) (w : W) → Effect (report (call e)) w tt w 0
  unfolding call report
  of_printk e w = record { from = λ r. step _ (zero_max _) }

  pub of_success : (m : Message) (w : W) → Effect (report (xtf_success m)) w tt w 1
  unfolding xtf_success report
  of_success m w = record { from = λ r. step _ (rise TestStatus.success m r).0 }

  pub of_skip : (m : Message) (w : W) → Effect (report (xtf_skip m)) w tt w 2
  unfolding xtf_skip report
  of_skip m w = record { from = λ r. step _ (rise TestStatus.skip m r).0 }

  pub of_error : (m : Message) (w : W) → Effect (report (xtf_error m)) w tt w 3
  unfolding xtf_error report
  of_error m w = record { from = λ r. step _ (rise TestStatus.error m r).0 }

  pub of_failure : (m : Message) (w : W) → Effect (report (xtf_failure m)) w tt w 4
  unfolding xtf_failure report
  of_failure m w = record { from = λ r. step _ (rise TestStatus.failure m r).0 }

  -- a part under an `if`
  pub of_when :
      (c : Bool) {f : Test W (Unit {0})} {w : W} {n : ℕ}
      → Effect f w tt w n
      → Effect (when c f) w tt w (if c then n else 0)
  unfolding when
  of_when true p = record { from = p.from }
  of_when false p = record { from = λ r. step r (zero_max _) }

  pub of_when_to :
      (c : Bool) {f : Test W (Unit {0})} {w u : W} {n : ℕ}
      → Effect f w tt u n
      → Effect (when c f) w tt (if c then u else w) (if c then n else 0)
  unfolding when
  of_when_to true p = record { from = p.from }
  of_when_to false p = record { from = λ r. step r (zero_max _) }

  -- a choice of two parts
  pub of_if :
      {A : Type 0} (c : Bool) {f g : Test W A} {w w' : W} {a : A} {n : ℕ}
      → (c ≡ true → Effect f w a w' n)
      → (c ≡ false → Effect g w a w' n)
      → Effect (if c then f else g) w a w' n
  of_if true p q = p refl
  of_if false p q = q refl

  pub of_unless :
      {A : Type 0} (c : Bool) {f g : Test W A} {w u v : W} {a : A} {m n : ℕ}
      → Effect f w a u m
      → Effect g w a v n
      → Effect (if not c then f else g) w a (if c then v else u) (if c then n else m)
  of_unless true p q = q
  of_unless false p q = p

  pub same :
      {A : Type 0} {a b : A} {w u v : W} {m n : ℕ} {f : Test W A}
      → Effect f w a u m
      → a ≡ b
      → u ≡ v
      → m ≡ n
      → Effect f w b v n
  same p e g h = rw (sym e, sym g, sym h) p

pub of_nothing : {W : Type 0} (f : Test W (Unit {0})) (w : W) → Effect (when false f) w tt w 0
unfolding when
of_nothing f w = record { from = λ r. step r (zero_max _) }

-- what an effect says of the two results
outcome :
    {W A : Type 0} {a : A} {w : W} {n v : ℕ} {x : A × (W × Report)}
    → Step a w n v x
    → (x.1.0 ≡ w) × (value x.1.1.status ≡ max n v)
outcome (step r e) = (refl, e)

-- the machine and the status after a part of a test that starts with the report `r`
pub of_Effect :
    {W A : Type 0} {f : Test W A} {w w' : W} {a : A} {n : ℕ}
    → Effect f w a w' n
    → (r : Report) → ((f (w, r)).1.0 ≡ w') × (value (f (w, r)).1.1.status ≡ max n (value r.status))
of_Effect p r = outcome (p.from r)

-- A check of `ok` fails where it does not hold.
abbrev pub grade : Bool → ℕ
grade true = 0
grade false = 4

pub grade-and : (p q : Bool) → max (grade q) (grade p) ≡ grade (p && q)
grade-and true true = refl
grade-and true false = refl
grade-and false true = refl
grade-and false false = refl

abbrev pub all_of {ℓ} : {A : Type ℓ} → (A → Bool) → List A → Bool
all_of p [] = true
all_of p (x ∷ xs) = p x && all_of p xs

-- A part of a test that leaves the machine, and fails where `holds` is false.
pub record Checks {W : Type 0} (f : Test W (Unit {0})) (w : W) (holds : Bool) : Type 0 where
  pub effect : Effect f w tt w (grade holds)

-- Two checks, one behind the other.
pub both :
    {W : Type 0} {f g : Test W (Unit {0})} {w : W} {p q : Bool}
    → Checks f w p
    → Checks g w q
    → Checks (f >> g) w (p && q)
both {g} {p} {q} a b = record {
  effect = same (bind (λ _. g) a.effect b.effect) refl refl (grade-and p q);
}

-- A loop of checks fails where one of them does.
pub of_for_each :
    {W A : Type 0} (xs : List A) {body : A → Test W (Unit {0})} {w : W} {p : A → Bool}
    → ((x : A) → Checks (body x) w (p x))
    → Checks (for_each xs body) w (all_of p xs)
unfolding for_each ◌>>=◌
of_for_each [] h = record { effect = record { from = λ r. step r (zero_max _) } }
of_for_each (x ∷ xs) {body} {p} h = both {g = for_each xs body} (h x) (of_for_each xs h)

-- A failure unless the check holds.
pub failure_unless :
    {W : Type 0} (holds : Bool) (m : Message) (w : W)
    → Effect (when (not holds) (report (xtf_failure m))) w tt w (grade holds)
failure_unless true m w = of_nothing _ w
failure_unless false m w = of_when true (of_failure m w)

pub of_failure_unless :
    {W : Type 0} {holds : Bool} (test : Bool) (m : Message) (w : W)
    → test ≡ holds
    → Checks (when (not test) (report (xtf_failure m))) w holds
of_failure_unless test m w e = rw (sym e) (record { effect = failure_unless test m w })

max_zero : (n : ℕ) → max n 0 ≡ n
max_zero n = omega arith

-- An instruction, and a check of what it records.
pub of_stub :
    {W : Type 0} (record_fault : Fault → ℕ) (insn : W → Fault × W) (k : ℕ → Test W (Unit {0}))
    {w : W} {holds : Bool}
    → (insn w).1 ≡ w
    → Checks (k (record_fault (insn w).0)) w holds
    → Checks (stub record_fault insn >>= k) w holds
unfolding stub
of_stub record_fault insn k unchanged c = record {
  effect = same (bind k (same (of_run _ _) refl unchanged refl) c.effect) refl refl (max_zero _);
}

pub of_expect :
    {W : Type 0} (enabled : Bool) (record_fault : Fault → ℕ) (insn : W → Fault × W) (exp : ℕ)
    (m : Message) (w : W) {holds : Bool}
    → (insn w).1 ≡ w
    → (record_fault (insn w).0 == exp) ≡ holds
    → Checks (expect enabled (stub record_fault insn) exp m) w (not enabled || holds)
of_expect false record_fault insn exp m w unchanged e = record { effect = of_nothing _ w }
of_expect true record_fault insn exp m w unchanged e = record {
  effect = of_when true (
      (of_stub record_fault insn (λ fault. when (not (fault == exp)) (failure m)) unchanged
        (of_failure_unless _ m w e)).effect);
}

pub of_for_each_map :
    {W A B : Type 0} (f : B → A) (xs : List B) (body : A → Test W (Unit {0})) {w : W} {p : B → Bool}
    → ((x : B) → Checks (body (f x)) w (p x))
    → Checks (for_each (map f xs) body) w (all_of p xs)
unfolding for_each ◌>>=◌
of_for_each_map f [] body h = record { effect = record { from = λ r. step r (zero_max _) } }
of_for_each_map f (x ∷ xs) body h =
    both {g = for_each (map f xs) body} (h x) (of_for_each_map f xs body h)
