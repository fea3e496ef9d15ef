-- ===== src/Suite/Selftest/Steps.antt =====
-- The steps of tests/selftest/main.c that only ask the framework and the processor.
use xtf.Base.{
  ℕ, ◌+◌, ◌/◌, ◌%◌, ◌^◌, ◌==◌, not, ◌&&◌, ◌||◌, Bool, true, false, if◌then◌else◌, List, [], ◌∷◌,
  Option, none,
}
use xtf.Base.Int.{ℤ}
use xtf.Base.Text.{codes}
use xtf.Base.Run.{Run}
use xtf.Printf.Parse.{int, ptr}
use xtf.Printf.Pointer.{ArchHook}
use xtf.Report.{Report}
use xtf.Extable.{CpuRegs, Entry}
use xtf.Apic.{ApicMode}
use xtf.Suite.{
  Test, ◌>>=◌, ◌>>◌, return, run, say, success, failure, when, message, Fault, Cr4, record_eax,
  stub, exinfo_sym, exc_pf,
}
use xtf.Suite.Argo.Abi.{arg, is_zero, is_error}
use xtf.Suite.Selftest.{
  do_unhandled_exception, test_extable_handler_handler, check_domid, test_vsnprintf_crlf,
  with_report,
}

-- What the rest of the framework and the processor do: ud2a with a plain entry in the exception table, with the hook
-- and with a handler; the `cs` that a function in user mode reads; a read of address 0; the entry of the
-- interrupt table that test_custom_idte() sets, and its `int`, with the `eax` that it leaves; and the functions that
-- initialise a driver, with their results.
pub record Environment (W : Type 0) : Type 0 where
  pub ud2a : W → Unit {0} × W
  pub ud2a_hooked : (CpuRegs → Report → (Bool × CpuRegs) × Report) → W × Report → W × Report
  pub ud2a_handled : (CpuRegs → Entry → Bool × (Bool × CpuRegs)) → W → Bool × W
  pub read_user_cs : W → ℕ × W
  pub mov_null : W → Fault × W
  pub set_avail_idte : W → ℤ × W
  pub int_avail : (eax : ℕ) → W → ℕ × W
  pub apic_init : ApicMode → W → ℤ × W
  pub hpet_init : W → ℤ × W
  pub ioapic_init : W → ℤ × W
  pub xenstore_init : W → ℤ × W
  pub xtf_init_grant_table : ℕ → W → ℤ × W
  pub xenstore_read : List ℕ → W → Option (List ℕ) × W

-- the two features that decide the new value of CR4
abbrev pub set_bit : ℕ → Bool → ℕ → ℕ
set_bit n wanted v = if wanted && not (v / 2 ^ n % 2 == 1) then v + 2 ^ n else v

-- `if ( rc ) xtf_failure(...)`, but for -ENODEV where that is tolerated
abbrev complain :
    {W : Type 0} → (tolerated : Bool) → ℤ → (ℤ → Test W (Unit {0})) → Test W (Unit {0})
complain tolerated rc fail = when (not (is_zero rc || (tolerated && is_error 19 rc))) (fail rc)

module _ {W : Type 0} (env : Environment W) where
  unfoldable pub test_xenstore : Test W (Unit {0})
  test_xenstore = do
    say "Test: Xenstore read\n" []
    domid_str ← run (env.xenstore_read (codes "domid"))
    check_domid domid_str

  unfoldable pub test_extable : Test W (Unit {0})
  test_extable = do say "Test: Exception Table\n" []; run env.ud2a

  -- USER_seen, USER_bad_cs and USER_not_seen are 1, 2 and 0.
  unfoldable pub test_exec_user_cpl3 : Test W ℕ
  test_exec_user_cpl3 = do cs ← run env.read_user_cs; return (if cs % 4 == 3 then 1 else 2)

  unfoldable pub test_exec_user : Test W (Unit {0})
  test_exec_user = do
    say "Test: Userspace execution\n" []
    res ← test_exec_user_cpl3
    if res == 1
        then return tt
        else if res == 2
        then failure (message "Fail: Not at cpl3\n" [])
        else failure (message "Fail: Did not execute function\n" [])

  unfoldable pub test_null_unmapped : Test W (Unit {0})
  test_null_unmapped = do
    say "Test: NULL unmapped\n" []
    got ← stub record_eax env.mov_null
    when (not (got == exinfo_sym exc_pf 0))
        (failure (message "Fail: Expected #PF, got %pe\n" (ptr got [] ∷ [])))

  unfoldable pub test_unhandled_exception_hook : (hook_fault hook_fixup : ℕ) → Test W (Unit {0})
  test_unhandled_exception_hook hook_fault hook_fixup = do
    say "Test: Unhandled Exception Hook\n" []
    λ s. (tt, env.ud2a_hooked (do_unhandled_exception hook_fault hook_fixup true) s)

  unfoldable pub test_extable_handler : Test W (Unit {0})
  test_extable_handler = do
    say "Test: Exception Table Handler\n" []
    handler_run ← run (env.ud2a_handled test_extable_handler_handler)
    when (not handler_run) (failure (message "Fail: Custom handler didn't run\n" []))

  unfoldable pub test_custom_idte : Test W (Unit {0})
  test_custom_idte = do
    say "Test: Custom IDT entry\n" []
    rc ← run env.set_avail_idte
    let interrupt : Test W (Unit {0}) = do
      res ← run (env.int_avail 0)
      when (not (res == 0x1e51c0de))
          (failure (message "Fail: Unexpected result %#x\n" (int res ∷ [])))
    if not (is_zero rc)
        then failure (message "Fail: xtf_set_idte() returned %d\n" (arg rc ∷ []))
        else interrupt

  -- behind the first apic_init()
  unfoldable pub test_apic_modes : (cpu_has_x2apic : Bool) → ℤ → Test W (Unit {0})
  test_apic_modes cpu_has_x2apic rc = do
    complain false rc λ rc. failure (message "Fail: apic_init(XAPIC) returned %d\n" (arg rc ∷ []))
    let x2apic : Test W (Unit {0}) = do
      rc ← run (env.apic_init ApicMode.x2apic)
      complain false rc
          λ rc. failure (message "Fail: apic_init(X2APIC) returned %d\n" (arg rc ∷ []))
    when cpu_has_x2apic x2apic

  -- It returns `has_xenstore`.
  unfoldable pub test_driver_init : (config_hvm cpu_has_x2apic : Bool) → Test W Bool
  test_driver_init config_hvm cpu_has_x2apic = do
    say "Test: Driver basic initialisation\n" []
    let of_hvm : Test W (Unit {0}) = do
      rc ← run (env.apic_init ApicMode.xapic)
      when (not (is_error 19 rc)) (test_apic_modes cpu_has_x2apic rc)
      rc ← run env.hpet_init
      complain true rc λ rc. failure (message "Fail: hpet_init() returned %d\n" (arg rc ∷ []))
      rc ← run env.ioapic_init
      complain true rc λ rc. failure (message "Fail: ioapic_init() returned %d\n" (arg rc ∷ []))
    when config_hvm of_hvm
    rc ← run env.xenstore_init
    let has_xenstore = is_zero rc
    complain true rc λ rc. failure (message "Fail: xenstore_init() returned %d\n" (arg rc ∷ []))
    rc ← run (env.xtf_init_grant_table 1)
    complain false rc
        λ rc. failure (message "Fail: xtf_init_grant_table(1) returned %d\n" (arg rc ∷ []))
    rc ← run (env.xtf_init_grant_table 2)
    complain true rc
        λ rc. failure (message "Fail: xtf_init_grant_table(2) returned %d\n" (arg rc ∷ []))
    return has_xenstore

  module _ (control : Cr4 W) (config_hvm cpu_has_smep cpu_has_smap cpu_has_x2apic : Bool)
      (hook_fault hook_fixup : ℕ) where
    -- SMEP and SMAP are bits 20 and 21 of CR4.
    unfoldable pub enable_protection : Test W (Unit {0})
    enable_protection = do
      ocr4 ← run (λ w. (control.read_cr4 w, w))
      let cr4 = set_bit 21 cpu_has_smap (set_bit 20 cpu_has_smep ocr4)
      when (not (cr4 == ocr4)) (run (λ w. (tt, control.write_cr4 cr4 w)))

    unfoldable pub selftest_first : Test W Bool
    selftest_first = do
      when config_hvm enable_protection
      test_extable
      test_exec_user
      test_null_unmapped
      test_unhandled_exception_hook hook_fault hook_fixup
      test_extable_handler
      test_custom_idte
      test_driver_init config_hvm cpu_has_x2apic

    unfoldable pub selftest_last : Bool → Test W (Unit {0})
    selftest_last has_xenstore = do when has_xenstore test_xenstore; success none

    -- test_main(), for CONFIG_PAGING_LEVELS above 0
    unfoldable pub selftest_main :
        ArchHook → (one two three : List ℕ) → W × Report → Run (W × Report)
    selftest_main arch one two three s =
        let first = selftest_first s in
        with_report (test_vsnprintf_crlf arch one two three first.1.1)
          λ r. (selftest_last first.0 (first.1.0, r)).1
