-- ===== src/Suite/Umip/Verdict.antt =====
-- What the verdict of tests/umip says of the processor.
use xtf.Base.{ℕ, ◌≡◌, refl, ap, max, not, ◌&&◌, ◌||◌, Bool, true, false, if◌then◌else◌, none, arith}
use xtf.Report.{Report, value}
use xtf.Suite.{Cpu, Cr4, write_cr4_safe}
use xtf.Suite.Effect.{Effect, bind, of_run, of_skip, of_success, of_when, same, grade, of_Effect}
use xtf.Suite.Faults.{succeeds, of_write_cr4_safe}
use xtf.Suite.Umip.{Insn, cr4_beside, with_umip, without_umip, activated, umip_main}
use xtf.Suite.Umip.Rounds.{Finding, merge, weight, find_umip, or_assoc, test_umip-Finds}

-- three phases, one behind the other, with the skip at the start and the success at the end
total :
    (fep : Bool) (x y z : Finding)
    → max
        (max
          (max (max (max (max (max (max 1 (weight (x.0 || y.0) z)) 0) 0) (weight x.0 y)) 0) 0)
          (weight false x))
        (if not fep then 2 else 0)
      ≡ max 1 (
          max (if not fep || (merge x (merge y z)).0 then 2 else 0) (grade (merge x (merge y z)).1))
total fep x y z = steps fep x.0 x.1 y.0 y.1 z.0 z.1
  where
    steps :
        (fep s f t g u h : Bool)
        → max
            (max
              (max
                (max (max (max (max (max 1 (weight (s || t) (u, h))) 0) 0) (weight s (t, g))) 0)
                0)
              (weight false (s, f)))
            (if not fep then 2 else 0)
          ≡ max 1 (max (if not fep || (s || (t || u)) then 2 else 0) (grade (f && (g && h))))
    steps fep s f t g u h = ground arith

module _ {W : Type 0} (cpu : Cpu W Insn) (control : Cr4 W) (xtf_has_fep : Bool)
    (unchanged : (user fep : Bool) (i : Insn) (w : W) → (cpu.execute user fep i w).1 ≡ w)
    (store : ℕ → W → W) (writes : (v : ℕ) (w : W) → control.mov_cr4 v w ≡ (none, store v w)) where
  -- the machine with UMIP, and the one without it again
  abbrev pub with_it : W → W
  with_it w = store (with_umip (control.read_cr4 w)) w

  abbrev pub without_it : W → W
  without_it w = store (without_umip (control.read_cr4 (with_it w))) (with_it w)

  -- the three phases
  abbrev pub found : W → Finding
  found w = merge (find_umip cpu xtf_has_fep false w) (
      merge (find_umip cpu xtf_has_fep true (with_it w))
        (find_umip cpu xtf_has_fep false (without_it w)))

  written :
      (v : ℕ) (w : W) (once : Bool)
      → Effect (write_cr4_safe (cr4_beside control) v) (w, once) false (store v w, once) 0
  written v w once =
      same (of_write_cr4_safe (cr4_beside control) v (w, once))
        (ap (λ x. not (succeeds x.0)) (writes v w)) (ap (λ x. (x.1, once)) (writes v w)) refl

  main_lem :
      (w : W)
      → Effect
          (umip_main cpu control xtf_has_fep true)
          (w, false)
          tt
          (without_it w, (found w).0)
          (max 1 (max (if not xtf_has_fep || (found w).0 then 2 else 0) (grade (found w).1)))
  unfolding umip_main activated
  main_lem w =
      let phase = λ (active : Bool) (w : W).
        (test_umip-Finds cpu unchanged control xtf_has_fep true active w).effect in
      same
        (bind _ (of_when _ (of_skip _ (w, false))) (
          bind _ (phase false w false) (
            bind _ (of_run _ _) (
              bind _ (written _ w _) (
                bind _ (phase true (with_it w) _) (
                  bind _ (of_run _ _) (
                    bind _ (written _ (with_it w) _)
                      (bind _ (phase false (without_it w) _) (of_success _ _)))))))))
        refl
        (ap (λ o. (without_it w, o))
          (or_assoc (find_umip cpu xtf_has_fep false w).0
            (find_umip cpu xtf_has_fep true (with_it w)).0
            (find_umip cpu xtf_has_fep false (without_it w)).0))
        (total xtf_has_fep (find_umip cpu xtf_has_fep false w)
          (find_umip cpu xtf_has_fep true (with_it w))
          (find_umip cpu xtf_has_fep false (without_it w)))

  -- On a processor with UMIP whose CR4 can be written, and whose five instructions leave the machine as
  -- it is: the test leaves the machine with the bit cleared, and its status is raised to that of a failure if, in one of
  -- the three phases, an instruction does not raise #GP[0] in user mode with UMIP or does not
  -- succeed otherwise, but for a forced one that raises #UD; else to that of a skip if there was such a
  -- one, or the forced emulation is not there; and else to that of a success.
  pub umip_main_lem :
      (w : W) (r : Report)
      → ((umip_main cpu control xtf_has_fep true ((w, false), r)).1.0 ≡ (without_it w, (found w).0))
        × (value (umip_main cpu control xtf_has_fep true ((w, false), r)).1.1.status
            ≡ max
                (max 1 (max (if not xtf_has_fep || (found w).0 then 2 else 0) (grade (found w).1)))
                (value r.status))
  umip_main_lem w r = of_Effect (main_lem w) r
