-- ===== src/Suite/CpuidFaulting/Verdict.antt =====
-- What the verdict of tests/cpuid-faulting says of the processor.
use xtf.Base.{ℕ, ◌≡◌, refl, max, not, ◌&&◌, ◌||◌, Bool, true, false, if◌then◌else◌, none, arith}
use xtf.Report.{Report, Message, value}
use xtf.Suite.{Cpu, record_edi}
use xtf.Suite.Effect.{
  Effect, Checks, bind, of_printk, of_answer, of_unless, grade-and, of_success, of_skip, of_when,
  same, grade, both, of_expect, of_Effect,
}
use xtf.Suite.Faults.{is_expected, record_edi-expected, gp_if}
use xtf.Suite.CpuidFaulting.{
  Insn, Msrs, msr_intel_platform_info, msr_intel_misc_features_enables, has_faulting, with_faulting,
  stub_cpuid, stub_force_cpuid, stub_user_cpuid, stub_user_force_cpuid, test_cpuid,
  with_faulting_on, cpuid_faulting_main,
}

-- The two MSRs can be accessed, and keep what is written; CPUID Faulting is there or not; and cpuid
-- leaves the machine as it is. What cpuid does is not part of it.
pub record KeepsMsrs {W : Type 0} (cpu : Cpu W Insn) (msrs : Msrs W) (available : Bool)
    (features : W → ℕ) (store : ℕ → W → W) : Type 0 where
  pub executes : (user fep : Bool) (w : W) → (cpu.execute user fep Insn.cpuid w).1 ≡ w
  pub platform_info : ℕ
  pub has : has_faulting platform_info ≡ available
  pub reads_info : (w : W) → msrs.rdmsr_safe msr_intel_platform_info w ≡ ((false, platform_info), w)
  pub reads : (w : W) → msrs.rdmsr_safe msr_intel_misc_features_enables w ≡ ((false, features w), w)
  pub writes :
      (v : ℕ) (w : W) → msrs.wrmsr_safe msr_intel_misc_features_enables v w ≡ (false, store v w)

module _ {W : Type 0} (cpu : Cpu W Insn) (msrs : Msrs W) (config_pv xtf_has_fep : Bool) where
  -- Of the kernel's cpuid none faults, and of the user's all or none: the plain one, and the forced
  -- one where it can be had.
  unfoldable pub behaves : (faulting : Bool) → W → Bool
  behaves faulting w =
      let fault_of = λ (user : Bool) (fep : Bool). (cpu.execute user fep Insn.cpuid w).0 in
      is_expected false (fault_of false false)
      && ((not config_pv || is_expected false (fault_of false true))
          && ((not xtf_has_fep || is_expected false (fault_of false true))
              && (is_expected faulting (fault_of true false)
                  && ((not config_pv || is_expected faulting (fault_of true true))
                      && (not xtf_has_fep || is_expected faulting (fault_of true true))))))

  test_cpuid_lem :
      ((user fep : Bool) (w : W) → (cpu.execute user fep Insn.cpuid w).1 ≡ w)
      → (faulting : Bool) (w : W)
      → Checks (test_cpuid cpu msrs config_pv xtf_has_fep faulting) w (behaves faulting w)
  unfolding behaves test_cpuid stub_cpuid stub_force_cpuid stub_user_cpuid stub_user_force_cpuid
  test_cpuid_lem unchanged faulting w =
      let checked = λ (enabled : Bool) (faults : Bool) (user : Bool) (fep : Bool) (m : Message).
        of_expect enabled record_edi (cpu.execute user fep Insn.cpuid) (gp_if faults) m w
          (unchanged user fep w) (record_edi-expected faults _) in
      both (checked true false false false _) (
        both (checked config_pv false false true _) (
          both (checked xtf_has_fep false false true _) (
            both (checked true faulting true false _) (
              both (checked config_pv faulting true true _)
                (checked xtf_has_fep faulting true true _)))))

  module _ (available : Bool) (features : W → ℕ) (store : ℕ → W → W)
      (law : KeepsMsrs cpu msrs available features store) where
    -- the machine with CPUID Faulting, and the one with the old value again
    abbrev pub enabled : W → W
    enabled w = store (with_faulting (features w)) w

    abbrev pub restored : W → W
    restored w = store (features w) (enabled w)

    checked :
        (faulting : Bool) (w : W)
        → Effect
            (test_cpuid cpu msrs config_pv xtf_has_fep faulting)
            w
            tt
            w
            (grade (behaves faulting w))
    checked faulting w = (test_cpuid_lem law.executes faulting w).effect

    on :
        (w : W)
        → Effect
            (with_faulting_on cpu msrs config_pv xtf_has_fep (features w))
            w
            tt
            (restored w)
            (max 1 (grade (behaves true (enabled w) && behaves false (restored w))))
    unfolding with_faulting_on
    on w =
        same
          (bind _ (of_answer _ (law.writes _ w)) (
            bind _ (of_printk _ _) (
              bind _ (checked true (enabled w)) (
                bind _ (of_answer _ (law.writes _ (enabled w))) (
                  bind _ (of_printk _ _)
                    (bind _ (checked false (restored w)) (of_success none _)))))))
          refl refl
          (omega (arith, grade-and (behaves true (enabled w)) (behaves false (restored w))))

    -- what the test finds
    abbrev pub verdict : W → ℕ
    verdict w =
        if available
        then max (max 1 (grade (behaves true (enabled w) && behaves false (restored w))))
            (grade (behaves false w))
        else max 2 (grade (behaves false w))

    weigh :
        (b : Bool) (s p q : ℕ)
        → max (max (max (max (if b then max q 0 else 2) 0) p) 0) s
          ≡ max s (if b then max q p else max 2 p)
    weigh b s p q = ground arith

    main_lem :
        (w : W)
        → Effect
            (cpuid_faulting_main cpu msrs config_pv xtf_has_fep)
            w
            tt
            (if available then restored w else w)
            (max (if not config_pv && not xtf_has_fep then 2 else 0) (verdict w))
    unfolding cpuid_faulting_main
    main_lem w =
        same
          (bind _ (of_when _ (of_skip _ w)) (
            bind _ (of_printk _ w) (
              bind _ (checked false w) (
                bind _ (of_answer _ (law.reads_info w)) (
                  rw law.has (
                    of_unless available (of_skip _ w)
                      (bind _ (of_answer _ (law.reads w)) (on w))))))))
          refl refl (weigh available _ _ _)

    -- Where the MSRs are as KeepsMsrs says, the test leaves MISC_FEATURES_ENABLES as it was, and its
    -- status is raised to that of a failure if a cpuid of the first phase does not behave or, where CPUID
    -- Faulting is available, one with it enabled or with it disabled again; else to that of a skip if CPUID
    -- Faulting is not available, or neither a PV guest nor the forced emulation is there; and else to that
    -- of a success.
    pub cpuid_faulting_main_lem :
        (w : W) (r : Report)
        → ((cpuid_faulting_main cpu msrs config_pv xtf_has_fep (w, r)).1.0
            ≡ (if available then restored w else w))
          × (value (cpuid_faulting_main cpu msrs config_pv xtf_has_fep (w, r)).1.1.status
              ≡ max
                  (max (if not config_pv && not xtf_has_fep then 2 else 0) (verdict w))
                  (value r.status))
    cpuid_faulting_main_lem w r = of_Effect (main_lem w) r
