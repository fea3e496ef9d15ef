-- ===== src/Suite/Swint/Verdict.antt =====
-- What the verdict of tests/swint-emulation says of the processor.
use xtf.Base.{ℕ, ◌≡◌, refl, max, not, ◌&&◌, Bool, true, if◌then◌else◌, arith}
use xtf.Report.{Report, value}
use xtf.Suite.Effect.{
  Effect, bind, of_run, of_skip, of_success, of_when, same, grade, grade-and, of_Effect,
}
use xtf.Suite.Swint.{
  Opcode, Idt, World, Processor, set_idt_entries_present, set_idt_entries_dpl, swint_main,
}
use xtf.Suite.Swint.Rules.{all_gates, all_delivered}
use xtf.Suite.Swint.Rounds.{cpl0, cpl3}

total :
    (p q : Bool) (n : ℕ)
    → max (max (max (max (max 1 (grade q)) (grade p)) 0) 0) n ≡ max (max 1 (grade (p && q))) n
total p q n = omega (arith, grade-and p q)

module _ {W : Type 0} (cpu : Processor W) (xtf_has_fep : Bool)
    (unchanged : (user fep addr : Bool) (i : Opcode) (s : World W)
      → (cpu.execute user fep addr i s).1 ≡ s) where
  first_present :
      (w : W) (idt : Idt)
      → Effect
          (set_idt_entries_present true)
          (w, idt)
          tt
          (
            w,
            record {
              db = record idt.db { p = true };
              bp = record idt.bp { p = true };
              of_gate = record idt.of_gate { p = true };
            },
          )
          0
  unfolding set_idt_entries_present
  first_present w idt = of_run _ _

  first_level :
      (w : W) (idt : Idt)
      → Effect
          (set_idt_entries_dpl 3)
          (
            w,
            record {
              db = record idt.db { p = true };
              bp = record idt.bp { p = true };
              of_gate = record idt.of_gate { p = true };
            },
          )
          tt
          (w, all_gates true 3)
          0
  unfolding set_idt_entries_dpl
  first_level w idt = of_run _ _

  swint_main_effect :
      (w : W) (idt : Idt)
      → Effect
          (swint_main cpu xtf_has_fep)
          (w, idt)
          tt
          (w, all_gates true 3)
          (max (max 1 (grade (all_delivered cpu xtf_has_fep w))) (if not xtf_has_fep then 2 else 0))
  unfolding swint_main
  swint_main_effect w idt =
      same
        (bind _ (of_when _ (of_skip _ (w, idt))) (
          bind _ (first_present w idt) (
            bind _ (first_level w idt) (
              bind _ (cpl0 cpu xtf_has_fep unchanged w).effect
                (bind _ (cpl3 cpu xtf_has_fep unchanged w).effect (of_success _ _))))))
        refl refl (total _ _ _)

  -- If the instructions leave the machine and the gates as they are, the status is raised to that of a failure
  -- if one of the variants that are tried of one of the five instructions does not raise the exception that
  -- the rules of the manuals say, at the place that they say; else to that of a skip if the forced emulation
  -- is not there; and else to that of a success. The machine is unchanged, and the gates are
  -- present and for user mode behind it.
  pub swint_main_lem :
      (w : W) (idt : Idt) (r : Report)
      → ((swint_main cpu xtf_has_fep ((w, idt), r)).1.0 ≡ (w, all_gates true 3))
        × (value (swint_main cpu xtf_has_fep ((w, idt), r)).1.1.status
            ≡ max
                (max
                  (max 1 (grade (all_delivered cpu xtf_has_fep w)))
                  (if not xtf_has_fep then 2 else 0))
                (value r.status))
  swint_main_lem w idt r = of_Effect (swint_main_effect w idt) r
