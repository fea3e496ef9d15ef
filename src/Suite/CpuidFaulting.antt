-- ===== src/Suite/CpuidFaulting.antt =====
-- tests/cpuid-faulting/main.c.
pub mod Verdict
use xtf.Base.{
  ℕ, ◌+◌, ◌/◌, ◌%◌, ◌^◌, ◌==◌, not, ◌&&◌, ◌||◌, Bool, true, false, if◌then◌else◌, [], ◌∷◌, none,
}
use xtf.Report.{literal}
use xtf.Suite.{
  Test, stub, expect, ◌>>=◌, ◌>>◌, run, say, success, skip, error, failure, when, message, Fault,
  Cpu, record_edi, exinfo_sym, exc_gp,
}

-- the instruction, with eax at 0
pub data Insn : Type 0 where
  cpuid : Insn

-- rdmsr_safe() returns whether the instruction faults, and the value.
pub record Msrs (W : Type 0) : Type 0 where
  pub rdmsr_safe : (msr : ℕ) → W → (Bool × ℕ) × W
  pub wrmsr_safe : (msr val : ℕ) → W → Bool × W

abbrev pub msr_intel_platform_info : ℕ
msr_intel_platform_info = 0xce

abbrev pub msr_intel_misc_features_enables : ℕ
msr_intel_misc_features_enables = 0x140

-- `v & PLATFORM_INFO_CPUID_FAULTING`
abbrev pub has_faulting : ℕ → Bool
has_faulting v = v / 2 ^ 31 % 2 == 1

-- `v | MISC_FEATURES_CPUID_FAULTING`
abbrev pub with_faulting : ℕ → ℕ
with_faulting v = if v % 2 == 1 then v else v + 1

-- Whether the build is one of a PV guest, and whether the forced emulation prefix is there.
module _ {W : Type 0} (cpu : Cpu W Insn) (msrs : Msrs W) (config_pv xtf_has_fep : Bool) where
  unfoldable pub stub_cpuid : Test W ℕ
  stub_cpuid = stub record_edi (cpu.execute false false Insn.cpuid)

  unfoldable pub stub_force_cpuid : Test W ℕ
  stub_force_cpuid = stub record_edi (cpu.execute false true Insn.cpuid)

  unfoldable pub stub_user_cpuid : Test W ℕ
  stub_user_cpuid = stub record_edi (cpu.execute true false Insn.cpuid)

  unfoldable pub stub_user_force_cpuid : Test W ℕ
  stub_user_force_cpuid = stub record_edi (cpu.execute true true Insn.cpuid)

  unfoldable pub test_cpuid : Bool → Test W (Unit {0})
  test_cpuid exp_faulting = do
    expect true stub_cpuid 0 (message "Fail: kernel cpuid faulted\n" [])
    expect config_pv stub_force_cpuid 0 (message "Fail: kernel pv cpuid faulted\n" [])
    expect xtf_has_fep stub_force_cpuid 0 (message "Fail: kernel emulated cpuid faulted\n" [])
    let exp = if exp_faulting then exinfo_sym exc_gp 0 else 0
    let exp_fail_str = literal (if exp_faulting then "didn't fault" else "faulted")
    expect true stub_user_cpuid exp (message "Fail: user cpuid %s\n" (exp_fail_str ∷ []))
    expect config_pv stub_user_force_cpuid exp
        (message "Fail: user pv cpuid %s\n" (exp_fail_str ∷ []))
    expect xtf_has_fep stub_user_force_cpuid exp
        (message "Fail: user emulated cpuid %s\n" (exp_fail_str ∷ []))

  -- behind the second call of rdmsr_safe()
  unfoldable pub with_faulting_on : ℕ → Test W (Unit {0})
  with_faulting_on features_enable = do
    enabled ← run (msrs.wrmsr_safe msr_intel_misc_features_enables (with_faulting features_enable))
    let restored : Test W (Unit {0}) = do
      say "Retesting CPUID without faulting enabled\n" []
      test_cpuid false
      success none
    let active : Test W (Unit {0}) = do
      say "Testing CPUID with faulting enabled\n" []
      test_cpuid true
      disabled ← run (msrs.wrmsr_safe msr_intel_misc_features_enables features_enable)
      if disabled then failure (message "Fail: Unable to disable CPUID Faulting\n" []) else restored
    if enabled then failure (message "Fail: Unable to enable CPUID Faulting\n" []) else active

  unfoldable pub cpuid_faulting_main : Test W (Unit {0})
  cpuid_faulting_main = do
    when (not config_pv && not xtf_has_fep)
        (skip (message "FEP support not detected - some tests will be skipped\n" []))
    say "Testing CPUID without faulting enabled\n" []
    test_cpuid false
    (unreadable, platform_info) ← run (msrs.rdmsr_safe msr_intel_platform_info)
    let present : Test W (Unit {0}) = do
      (faulted, features_enable) ← run (msrs.rdmsr_safe msr_intel_misc_features_enables)
      if faulted
          then error (message "Error: Fault accessing MISC_FEATURES_ENABLES\n" [])
          else with_faulting_on features_enable
    if unreadable || not (has_faulting platform_info)
        then skip (message "Skip: CPUID Faulting unavailable\n" [])
        else present
