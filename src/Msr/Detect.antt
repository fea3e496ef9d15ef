-- ===== src/Msr/Detect.antt =====
-- What the MSR consistency test finds and what it does not complain about.
use Prim.Native.String.{String}
use xtf.Base.{
  ℕ, ◌==◌, ◌≡◌, ◌≢◌, ◌≤◌, refl, ◌∙◌, not, Bool, true, false, if◌then◌else◌, List, [], ◌∷◌, ◌++◌,
  arith, Bool-cases, inl, inr,
}
use xtf.Report.{TestStatus, value, Report, xtf_failure}
use xtf.Report.Verdict.{rise}
use xtf.Msr.{
  Processor, TestVal, check, real_real, real_emul, real_round, emul_real, emul_emul, emul_round,
  for_each, xtf_msr_consistency_test,
}

-- A register keeps `current`, which every kind of write sets, and which every kind of read returns and
-- leaves.
pub record IsCoherent {W : Type 0} (cpu : Processor W) (msr : ℕ) (current : W → ℕ) : Type 0 where
  pub writes : (v : ℕ) (w : W) → current (cpu.wrmsr msr v w) ≡ v
  pub force_writes : (v : ℕ) (w : W) → current (cpu.force_wrmsr msr v w) ≡ v
  pub reads : (w : W) → (cpu.rdmsr msr w).0 ≡ current w
  pub keeps : (w : W) → current (cpu.rdmsr msr w).1 ≡ current w
  pub force_reads : (w : W) → (cpu.force_rdmsr msr w).0 ≡ current w

equal_self : (n : ℕ) → (n == n) ≡ true
equal_self n = ground arith

check-equal :
    (fmt : String) (msr val expected : ℕ) (r : Report)
    → val ≡ expected
    → check fmt msr val expected r ≡ r
unfolding check
check-equal fmt msr val expected r e = rw (e, equal_self expected) refl

check-rises :
    (fmt : String) (msr val expected : ℕ) (r : Report)
    → value r.status ≤ value (check fmt msr val expected r).status
unfolding check xtf_failure
check-rises fmt msr val expected r = elim (Bool-cases (val == expected)) [
  | inl same ↦ rw same (omega arith)
  | inr differ ↦ rw differ (omega (arith, (rise TestStatus.failure _ r).0))
]

check-differ :
    (fmt : String) (msr val expected : ℕ) (r : Report)
    → val ≢ expected
    → 4 ≤ value (check fmt msr val expected r).status
unfolding check xtf_failure
check-differ fmt msr val expected r ne =
    let differ : (val == expected) ≡ false = ground (arith, ne) in
    rw differ (omega (arith, (rise TestStatus.failure _ r).0))

module _ {W : Type 0} (cpu : Processor W) (msr : ℕ) where
  -- a round that does not lower the status
  IsRising : (ℕ → W × Report → W × Report) → Type 0
  IsRising round = (v : ℕ) (s : W × Report) → value (s.1).status ≤ value ((round v s).1).status

  if_rises :
      (b : Bool) (s done : W × Report)
      → value (s.1).status ≤ value (done.1).status
      → value (s.1).status ≤ value ((if b then s else done).1).status
  if_rises true s done h = omega arith
  if_rises false s done h = h

  for_each-rises :
      (round : ℕ → W × Report → W × Report) (vals : List TestVal) (s : W × Report)
      → IsRising round
      → value (s.1).status ≤ value ((for_each cpu msr round vals s).1).status
  unfolding for_each IsRising
  for_each-rises round [] s h = omega arith
  for_each-rises round (t ∷ vals) s h = omega (
    arith,
    if_rises (not t.pred) s (round t.val s) (h t.val s),
    for_each-rises round vals (if not t.pred then s else round t.val s) h,
  )

  real_round-rises : (has_fep : Bool) → IsRising (real_round cpu msr has_fep)
  unfolding IsRising real_round real_real real_emul
  real_round-rises has_fep v (w, r) = elim (Bool-cases (not has_fep)) [
    | inl without ↦ rw without (check-rises _ msr _ v r)
    | inr fep ↦ rw fep (omega (arith, check-rises _ msr _ v r, check-rises _ msr _ v _))
  ]

  emul_round-rises : IsRising (emul_round cpu msr)
  unfolding IsRising emul_round emul_real emul_emul
  emul_round-rises v (w, r) =
      let (read, w') = cpu.rdmsr msr (cpu.force_wrmsr msr v w) in
      omega (arith, check-rises _ msr read v r, check-rises _ msr (cpu.force_rdmsr msr w').0 v _)

  taken :
      (b : Bool) (s done : W × Report)
      → b ≡ true
      → 4 ≤ value (done.1).status
      → 4 ≤ value ((if not b then s else done).1).status
  taken true s done e h = h
  taken false s done e h = absurd (ground (arith, e))

  real_round-finds :
      (has_fep : Bool) (v : ℕ) (s : W × Report)
      → ((w : W) → (cpu.rdmsr msr (cpu.wrmsr msr v w)).0 ≢ v)
      → 4 ≤ value ((real_round cpu msr has_fep v s).1).status
  unfolding real_round real_real real_emul
  real_round-finds false v (w, r) wrong = check-differ _ msr _ v r (wrong w)
  real_round-finds true v (w, r) wrong = omega (
    arith,
    check-differ "Fail: MSR %08x, real write, real read\n  Got %016lx, Expected %016lx\n" msr _ v r
        (wrong w),
    check-rises "Fail: MSR %08x, real write, emul read\n  Got %016lx, Expected %016lx\n" msr _ v _,
  )

  -- the first loop, at a value that is not read back
  found :
      (has_fep : Bool) (before after : List TestVal) (t : TestVal) (s : W × Report)
      → t.pred ≡ true
      → ((w : W) → (cpu.rdmsr msr (cpu.wrmsr msr t.val w)).0 ≢ t.val)
      → 4 ≤ value ((for_each cpu msr (real_round cpu msr has_fep) (before ++ t ∷ after) s).1).status
  unfolding for_each
  found has_fep [] after t s p wrong = omega (
    arith,
    taken t.pred s (real_round cpu msr has_fep t.val s) p (real_round-finds has_fep t.val s wrong),
    for_each-rises (real_round cpu msr has_fep) after
        (if not t.pred then s else real_round cpu msr has_fep t.val s) (real_round-rises has_fep),
  )
  found has_fep (t' ∷ before) after t s p wrong = found has_fep before after t _ p wrong

  -- If there is a value, with its predicate true, that a read does not return behind a write of it, the
  -- test reports a FAILURE, whatever the other values are and whether there is a forced emulator.
  pub xtf_msr_consistency_test-finds :
      (has_fep : Bool) (before after : List TestVal) (t : TestVal) (s : W × Report)
      → t.pred ≡ true
      → ((w : W) → (cpu.rdmsr msr (cpu.wrmsr msr t.val w)).0 ≢ t.val)
      → 4 ≤ value ((xtf_msr_consistency_test cpu msr has_fep (before ++ t ∷ after) s).1).status
  unfolding xtf_msr_consistency_test
  xtf_msr_consistency_test-finds has_fep before after t s p wrong =
      let once = for_each cpu msr (real_round cpu msr has_fep) (before ++ t ∷ after) s in
      let twice = for_each cpu msr (emul_round cpu msr) (before ++ t ∷ after) once in
      omega (
        arith,
        found has_fep before after t s p wrong,
        if_rises (not has_fep) once twice
            (for_each-rises (emul_round cpu msr) (before ++ t ∷ after) once emul_round-rises),
      )

  module _ (current : W → ℕ) (law : IsCoherent cpu msr current) where
    IsSilent : (ℕ → W × Report → W × Report) → Type 0
    IsSilent round = (v : ℕ) (s : W × Report) → (round v s).1 ≡ s.1

    if_silent : (b : Bool) (s done : W × Report) → done.1 ≡ s.1 → (if b then s else done).1 ≡ s.1
    if_silent true s done h = refl
    if_silent false s done h = h

    for_each-silent :
        (round : ℕ → W × Report → W × Report) (vals : List TestVal) (s : W × Report)
        → IsSilent round
        → (for_each cpu msr round vals s).1 ≡ s.1
    unfolding for_each IsSilent
    for_each-silent round [] s h = refl
    for_each-silent round (t ∷ vals) s h =
        for_each-silent round vals _ h ∙ if_silent (not t.pred) s (round t.val s) (h t.val s)

    real_round-IsSilent : (has_fep : Bool) → IsSilent (real_round cpu msr has_fep)
    unfolding IsSilent real_round real_real real_emul
    real_round-IsSilent false v (w, r) =
        check-equal _ msr _ v r (law.reads (cpu.wrmsr msr v w) ∙ law.writes v w)
    real_round-IsSilent true v (w, r) =
        check-equal _ msr _ v _ (law.force_reads _ ∙ law.keeps (cpu.wrmsr msr v w) ∙ law.writes v w)
        ∙ check-equal _ msr _ v r (law.reads (cpu.wrmsr msr v w) ∙ law.writes v w)

    emul_round-IsSilent : IsSilent (emul_round cpu msr)
    unfolding IsSilent emul_round emul_real emul_emul
    emul_round-IsSilent v (w, r) =
        check-equal _ msr _ v _
          (law.force_reads _ ∙ law.keeps (cpu.force_wrmsr msr v w) ∙ law.force_writes v w)
        ∙ check-equal _ msr _ v r (law.reads (cpu.force_wrmsr msr v w) ∙ law.force_writes v w)

    -- If real and emulated accesses agree on the register and the register keeps what is written, the
    -- test reports nothing.
    pub xtf_msr_consistency_test-silent :
        (has_fep : Bool) (vals : List TestVal) (s : W × Report)
        → (xtf_msr_consistency_test cpu msr has_fep vals s).1 ≡ s.1
    unfolding xtf_msr_consistency_test
    xtf_msr_consistency_test-silent has_fep vals s =
        let once = for_each cpu msr (real_round cpu msr has_fep) vals s in
        let twice = for_each cpu msr (emul_round cpu msr) vals once in
        if_silent (not has_fep) once twice
          (for_each-silent (emul_round cpu msr) vals once emul_round-IsSilent)
        ∙ for_each-silent (real_round cpu msr has_fep) vals s (real_round-IsSilent has_fep)
