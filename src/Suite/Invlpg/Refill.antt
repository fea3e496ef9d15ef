-- ===== src/Suite/Invlpg/Refill.antt =====
-- The verdict that tests/invlpg gives on the refills of the TLB.
use xtf.Base.{
  ℕ, zero, suc, ◌+◌, ◌*◌, ◌<◌, ◌≤◌, ◌≡◌, ◌≢◌, ◌⊎◌, inl, inr, refl, ap, max, ◌==◌, false,
  if◌then◌else◌, List, [], ◌∷◌, arith, Bool-cases,
}
use xtf.Report.{Report, value}
use xtf.Suite.{Test, ◌>>=◌, return}
use xtf.Suite.Effect.{Effect, bind, of_printk, of_failure, failure_unless, same, grade, of_Effect}
use xtf.Desc.{user_desc_base}
use xtf.Suite.Invlpg.{
  refill_loop, refill_of_one, refill_verdict, run_tlb_refill_test, tlb_refill_fs_tests,
  TlbRefillFsTest,
}

-- the machine and the report after `n` calls, and what the call behind them returns
abbrev pub after : {W : Type 0} → Test W ℕ → ℕ → W × Report → W × Report
after fn zero s = s
after fn (suc n) s = after fn n (fn s).1

abbrev pub result : {W : Type 0} → Test W ℕ → ℕ → W × Report → ℕ
result fn n s = (fn (after fn n s)).0

-- Behind `n` calls that found both pages refilled, the call that counts: the first that did not, or
-- that after `tries` of them.
pub record Counts {W : Type 0} (fn : Test W ℕ) (tries : ℕ) (s : W × Report) (n : ℕ) : Type 0 where
  pub bounded : n ≤ tries
  pub raced : (k : ℕ) → k < n → result fn k s ≡ 3
  pub last : (result fn n s ≢ 3) ⊎ (n ≡ tries)

-- Of one refill the page has to be the expected one, and of both nothing is said.
abbrev pub worth : (expect ret : ℕ) → ℕ
worth expect zero = 4
worth expect (suc zero) = if expect == 1 then 0 else 4
worth expect (suc (suc zero)) = if expect == 2 then 0 else 4
worth expect (suc (suc (suc zero))) = 0
worth expect (suc (suc (suc (suc n)))) = 4

module _ {W : Type 0} (fn : Test W ℕ) where
  shift :
      (tries n : ℕ) (s : W × Report)
      → (fn s).0 ≡ 3
      → Counts fn tries (fn s).1 n
      → Counts fn (suc tries) s (suc n)
  shift tries n s e c = record {
    bounded = omega (arith, c.bounded);
    raced = before;
    last = elim c.last [ inl p ↦ inl p | inr q ↦ inr (ap suc q) ];
  }
    where
      before : (k : ℕ) → k < suc n → result fn k s ≡ 3
      before zero h = e
      before (suc k) h = c.raced k (omega (arith, h))

  loop_lem :
      (tries : ℕ) (s : W × Report)
      → (n : ℕ) × Counts fn tries s n × (refill_loop tries fn s ≡ fn (after fn n s))
  unfolding refill_loop ◌>>=◌ return
  loop_lem zero s = (
    zero,
    record { bounded = omega arith; raced = λ k h. absurd (omega arith); last = inr refl },
    refl,
  )
  loop_lem (suc tries) s = elim (Bool-cases ((fn s).0 == 3)) [
    | inl raced ↦
        let (n, c, e) = loop_lem tries (fn s).1 in
        (suc n, shift tries n s (ground (arith, raced)) c, rw raced e)
    | inr settled ↦ (
      zero,
      record {
        bounded = omega arith;
        raced = λ k h. absurd (omega arith);
        last = inl (λ e. absurd (ground (arith, settled, e)));
      },
      rw settled refl,
    )
  ]

one_lem :
    {W : Type 0} (expect ret : ℕ) (w : W)
    → Effect (refill_of_one expect ret) w tt w (grade (ret == expect))
unfolding refill_of_one
one_lem expect ret w =
    same (bind _ (of_printk _ w) (failure_unless (ret == expect) _ w)) refl refl (omega arith)

above : (n k : ℕ) → k < 4 → (suc (suc (suc (suc n))) == k) ≡ false
above n k h = ground (arith, h)

verdict_lem :
    {W : Type 0} (expect ret : ℕ) (w : W)
    → Effect (refill_verdict expect ret) w tt w (worth expect ret)
unfolding refill_verdict
verdict_lem expect zero w = of_failure _ w
verdict_lem expect (suc zero) w = same (one_lem expect 1 w) refl refl (ground arith)
verdict_lem expect (suc (suc zero)) w = same (one_lem expect 2 w) refl refl (ground arith)
verdict_lem expect (suc (suc (suc zero))) w = of_printk _ w
verdict_lem expect (suc (suc (suc (suc n)))) w =
    rw
      (
        above n 0 (omega arith),
        above n 1 (omega arith),
        above n 2 (omega arith),
        above n 3 (omega arith),
      )
      (of_failure _ w)

module _ {W : Type 0} (fn : Test W ℕ) where
  after_suc : (n : ℕ) (s : W × Report) → after fn (suc n) s ≡ (fn (after fn n s)).1
  after_suc zero s = refl
  after_suc (suc n) s = after_suc n (fn s).1

  -- The state that run_tlb_refill_test() judges is that behind the last of at most 20 calls: those before
  -- found both pages refilled, and that one did not, unless it is the twentieth. The status is raised to
  -- that of a failure if it found no page refilled, one that is not the expected one, or a value that is no set of
  -- the two pages; the machine is as that call leaves it.
  pub run_tlb_refill_test_lem :
      (expect : ℕ) (s : W × Report)
      → (n : ℕ) × Counts fn 19 s n
        × ((run_tlb_refill_test fn expect s).1.0 ≡ (after fn (suc n) s).0)
        × (value (run_tlb_refill_test fn expect s).1.1.status
            ≡ max (worth expect (result fn n s)) (value (after fn (suc n) s).1.status))
  unfolding run_tlb_refill_test ◌>>=◌
  run_tlb_refill_test_lem expect s =
      let (n, c, e) = loop_lem fn 19 s in
      let u = fn (after fn n s) in
      let judged = of_Effect (verdict_lem expect u.0 u.1.0) u.1.1 in
      (n, c, rw (e, after_suc n s) judged.0, rw (e, after_suc n s) judged.1)

-- every page that a row of the table expects is that of its segment's base and 0x1000
abbrev pub Agrees : List TlbRefillFsTest → Type 0
Agrees [] = Unit
Agrees (t ∷ ts) =
    (t.mapping * 0x1000 ≡ user_desc_base t.seg (record { lo = 0; hi = 0 }) + 0x1000) × Agrees ts

pub tlb_refill_fs_tests-Agrees : Agrees tlb_refill_fs_tests
unfolding tlb_refill_fs_tests user_desc_base
tlb_refill_fs_tests-Agrees = (refl, (refl, (refl, (refl, tt))))
