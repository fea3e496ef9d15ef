-- ===== src/Suite/Swint/Rounds.antt =====
-- The comparisons of tests/swint-emulation/main.c as effects on the machine and the report.
use xtf.Base.{◌≡◌, refl, sym, ℕ, not, ◌&&◌, ◌||◌, Bool, true, false, if◌then◌else◌, arith}
use xtf.Report.{Event, call}
use xtf.Traps.{exinfo, ex_record_fault_eax}
use xtf.Suite.{Test, ◌>>◌, return, report, exinfo_sym, exc_ud, exc_gp}
use xtf.Suite.Effect.{
  Effect, Checks, bind, both, of_run, of_return, of_printk, of_failure_unless, same,
}
use xtf.Suite.Swint.{
  Opcode, World, Processor, ex_record_trap_eax, recorded, stub, fn, compare_one, compare_all,
  set_idt_entries_present, set_idt_entries_dpl, test_insn, test_insns, all_ok, not_present,
  cpl3_tests, cpl0_tests, fault_ec, fault_ec_ext, trap_sym, exc_np, exc_bp, exc_db,
}
use xtf.Suite.Swint.Rules.{
  delivered, is_same, recorded-is_same, all_gates, variant, agrees, all_agree,
}

exactly :
    {W : Type 0} {f : Test W (Unit {0})} {w : W} {p q : Bool} → p ≡ q → Checks f w p → Checks f w q
exactly e c = rw (sym e) c

done : {W : Type 0} (w : W) → Checks (return tt) w true
done w = record { effect = of_return tt w }

unless :
    {W : Type 0} (c : Bool) {f : Test W (Unit {0})} {w : W} {p : Bool}
    → Checks f w p
    → Checks (if not c then return tt else f) w (not c || p)
unless true p = p
unless false p = done _

and_true : (p q : Bool) → (p && (q && true)) ≡ (p && q)
and_true true true = refl
and_true true false = refl
and_true false q = refl

spoken :
    {W : Type 0} (e : Event) {f : Test W (Unit {0})} {w : W} {p : Bool}
    → Checks f w p
    → Checks (report (call e) >> f) w p
spoken e {f} c = record {
  effect = same (bind (λ _. f) (of_printk _ _) c.effect) refl refl (omega arith);
}

module _ {W : Type 0} (cpu : Processor W) (xtf_has_fep : Bool)
    (unchanged : (user fep addr : Bool) (i : Opcode) (s : World W)
      → (cpu.execute user fep addr i s).1 ≡ s) where
  compare_one-Checks :
      (user fep addr : Bool) (insn : Opcode) (i : ℕ) (s : World W)
      → Checks
          (compare_one (recorded (delivered user insn s.1)) (i, stub cpu user fep addr insn))
          s
          (is_same (delivered user insn s.1) (variant cpu xtf_has_fep user fep addr insn s))
  unfolding compare_one stub
  compare_one-Checks user fep addr insn i s = record {
    effect =
        same
          (bind _ (same (of_run _ s) refl (unchanged user fep addr insn s) refl)
            (of_failure_unless _ _ s (
              recorded-is_same (delivered user insn s.1)
                (variant cpu xtf_has_fep user fep addr insn s))).effect)
          refl refl (omega arith);
  }

  compared :
      (user : Bool) (insn : Opcode) (s : World W)
      → Checks
          (compare_all xtf_has_fep (recorded (delivered user insn s.1)) (fn cpu user insn))
          s
          (agrees cpu xtf_has_fep user insn s)
  unfolding compare_all fn agrees
  compared user insn s = both (compare_one-Checks user false false insn 0 s) (
      both (compare_one-Checks user false true insn 1 s) (
        unless xtf_has_fep (
          exactly (and_true _ _) (
            both (compare_one-Checks user true false insn 2 s)
              (both (compare_one-Checks user true true insn 3 s) (done s))))))

  tested :
      (user : Bool) (insn : Opcode) (exp : ℕ) (s : World W)
      → recorded (delivered user insn s.1) ≡ exp
      → Checks (test_insn cpu xtf_has_fep user insn exp) s (agrees cpu xtf_has_fep user insn s)
  unfolding test_insn
  tested user insn exp s e = rw (sym e) (spoken _ (compared user insn s))

  tested_all :
      (user : Bool) (a b c d e : ℕ) (s : World W)
      → recorded (delivered user Opcode.int3 s.1) ≡ a
      → recorded (delivered user Opcode.int_0x3 s.1) ≡ b
      → recorded (delivered user Opcode.icebp s.1) ≡ c
      → recorded (delivered user Opcode.int_0x1 s.1) ≡ d
      → recorded (delivered user Opcode.into s.1) ≡ e
      → Checks (test_insns cpu xtf_has_fep user a b c d e) s (all_agree cpu xtf_has_fep user s)
  unfolding test_insns all_agree
  tested_all user a b c d e s ea eb ec ed ee = both (tested user Opcode.int3 a s ea) (
      both (tested user Opcode.int_0x3 b s eb) (
        both (tested user Opcode.icebp c s ec)
          (both (tested user Opcode.int_0x1 d s ed) (tested user Opcode.into e s ee))))

  all_ok-Checks :
      (user : Bool) (w : W)
      → Checks
          (all_ok cpu xtf_has_fep user)
          (w, all_gates true 3)
          (all_agree cpu xtf_has_fep user (w, all_gates true 3))
  unfolding recorded exinfo ex_record_fault_eax ex_record_trap_eax
  all_ok-Checks true w = tested_all true _ _ _ _ _ _ refl refl refl refl refl
  all_ok-Checks false w = tested_all false _ _ _ _ _ _ refl refl refl refl refl

  -- `p` and `dpl` of all gates
  presents :
      (b p : Bool) (d : ℕ) (w : W)
      → Effect (set_idt_entries_present b) (w, all_gates p d) tt (w, all_gates b d) 0
  unfolding set_idt_entries_present
  presents b p d w = of_run _ _

  levels :
      (e : ℕ) (p : Bool) (d : ℕ) (w : W)
      → Effect (set_idt_entries_dpl e) (w, all_gates p d) tt (w, all_gates p e) 0
  unfolding set_idt_entries_dpl
  levels e p d w = of_run _ _

  absent :
      (user : Bool) (w : W)
      → Checks
          (test_insns cpu xtf_has_fep user
            (fault_ec exc_np exc_bp)
            (fault_ec exc_np exc_bp)
            (fault_ec_ext exc_np exc_db)
            (fault_ec exc_np exc_db)
            (exinfo_sym exc_ud 0))
          (w, all_gates false 3)
          (all_agree cpu xtf_has_fep user (w, all_gates false 3))
  unfolding recorded exinfo ex_record_fault_eax ex_record_trap_eax
  absent true w = tested_all true _ _ _ _ _ _ refl refl refl refl refl
  absent false w = tested_all false _ _ _ _ _ _ refl refl refl refl refl

  not_present-Checks :
      (user : Bool) (w : W)
      → Checks
          (not_present cpu xtf_has_fep user)
          (w, all_gates true 3)
          (all_agree cpu xtf_has_fep user (w, all_gates false 3))
  not_present-Checks user w = record {
    effect =
        same
          (bind _ (presents false true 3 w)
            (bind _ (absent user w).effect (presents true false 3 w)))
          refl refl (omega arith);
  }

  -- the gates for the kernel only, from user mode
  kernel_only :
      (w : W)
      → Checks
          (test_insns cpu xtf_has_fep true
            (fault_ec exc_gp exc_bp)
            (fault_ec exc_gp exc_bp)
            (trap_sym exc_db)
            (fault_ec exc_gp exc_db)
            (exinfo_sym exc_ud 0))
          (w, all_gates true 0)
          (all_agree cpu xtf_has_fep true (w, all_gates true 0))
  unfolding recorded exinfo ex_record_fault_eax ex_record_trap_eax
  kernel_only w = tested_all true _ _ _ _ _ _ refl refl refl refl refl

  pub cpl0 :
      (w : W)
      → Checks
          (cpl0_tests cpu xtf_has_fep)
          (w, all_gates true 3)
          (all_agree cpu xtf_has_fep false (w, all_gates true 3)
            && all_agree cpu xtf_has_fep false (w, all_gates false 3))
  unfolding cpl0_tests
  cpl0 w = spoken _ (both (all_ok-Checks false w) (spoken _ (not_present-Checks false w)))

  restricted :
      (w : W)
      → Checks
          (set_idt_entries_dpl 0
            >> (test_insns cpu xtf_has_fep true
                  (fault_ec exc_gp exc_bp)
                  (fault_ec exc_gp exc_bp)
                  (trap_sym exc_db)
                  (fault_ec exc_gp exc_db)
                  (exinfo_sym exc_ud 0)
                >> set_idt_entries_dpl 3))
          (w, all_gates true 3)
          (all_agree cpu xtf_has_fep true (w, all_gates true 0))
  restricted w = record {
    effect =
        same (bind _ (levels 0 true 3 w) (bind _ (kernel_only w).effect (levels 3 true 0 w))) refl
          refl (omega arith);
  }

  pub cpl3 :
      (w : W)
      → Checks
          (cpl3_tests cpu xtf_has_fep)
          (w, all_gates true 3)
          (all_agree cpu xtf_has_fep true (w, all_gates true 3)
            && (all_agree cpu xtf_has_fep true (w, all_gates false 3)
                && all_agree cpu xtf_has_fep true (w, all_gates true 0)))
  unfolding cpl3_tests
  cpl3 w = spoken _ (
      both (all_ok-Checks true w)
        (spoken _ (both (not_present-Checks true w) (spoken _ (restricted w)))))
