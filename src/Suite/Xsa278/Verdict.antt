-- ===== src/Suite/Xsa278/Verdict.antt =====
-- What the verdict of tests/xsa-278 says of the processor.
use Prim.Native.String.{String}
use xtf.Base.{
  ℕ, ◌≡◌, refl, max, not, ◌&&◌, ◌||◌, Bool, false, if◌then◌else◌, List, [], ◌∷◌, map, arith,
}
use xtf.Report.{Report, value}
use xtf.Suite.{Test, Cpu, Cr4, Fault, record_edi, stub, for_each}
use xtf.Suite.Effect.{
  Effect, Checks, bind, of_run, of_success, of_error, of_when_to, of_stub, of_for_each_map,
  of_failure_unless, all_of, same, grade, of_Effect,
}
use xtf.Suite.Faults.{raises, succeeds, record_edi-raises, of_write_cr4_safe}
use xtf.Suite.Xsa278.{
  Insn, vmxe, with_vmxe, without_vmxe, tests, run_one, try_vmxe, xsa_278_main, stub_vmclear,
  stub_vmptrld, stub_vmptrst, stub_vmread, stub_vmwrite, stub_vmlaunch, stub_vmresume, stub_vmxoff,
  stub_vmxon, stub_invept, stub_invvpid,
}

abbrev pub instructions : List Insn
instructions =
    Insn.vmclear ∷ Insn.vmptrld ∷ Insn.vmptrst ∷ Insn.vmread ∷ Insn.vmwrite ∷ Insn.vmlaunch
    ∷ Insn.vmresume ∷ Insn.vmxoff ∷ Insn.vmxon ∷ Insn.invept ∷ Insn.invvpid ∷ []

abbrev name_of : Insn → String
name_of Insn.vmclear = "vmclear"
name_of Insn.vmptrld = "vmptrld"
name_of Insn.vmptrst = "vmptrst"
name_of Insn.vmread = "vmread"
name_of Insn.vmwrite = "vmwrite"
name_of Insn.vmlaunch = "vmlaunch"
name_of Insn.vmresume = "vmresume"
name_of Insn.vmxoff = "vmxoff"
name_of Insn.vmxon = "vmxon"
name_of Insn.invept = "invept"
name_of Insn.invvpid = "invvpid"

try :
    {W : Type 0} (control : Cr4 W) (u : W) (cr4 : ℕ)
    → Effect
        (try_vmxe control cr4)
        u
        tt
        (control.mov_cr4 (with_vmxe cr4) u).1
        (grade (not (succeeds (control.mov_cr4 (with_vmxe cr4) u).0)))
unfolding try_vmxe
try control u cr4 =
    same (bind _ (of_write_cr4_safe control _ u) (of_failure_unless _ _ _ refl).effect) refl refl
      (omega arith)

weigh :
    (v h u f : Bool)
    → max (max (max (max 1 (if not h then grade f else 0)) (grade u)) (if v then max 0 3 else 0)) 0
      ≡ max (max 1 (grade (u && (h || f)))) (if v then 3 else 0)
weigh v h u f = ground arith

module _ {W : Type 0} (cpu : Cpu W Insn)
    (unchanged : (i : Insn) (w : W) → (cpu.execute false false i w).1 ≡ w) where
  -- each of the instructions raises #UD
  unfoldable pub all_undefined : W → Bool
  all_undefined w = all_of (λ i. raises 6 (cpu.execute false false i w).0) instructions

  round :
      (name : String) (i : Insn) (w : W)
      → Checks
          (run_one cpu (name, stub record_edi (cpu.execute false false i)))
          w
          (raises 6 (cpu.execute false false i w).0)
  unfolding run_one
  round name i w =
      of_stub record_edi (cpu.execute false false i) _ (unchanged i w)
        (of_failure_unless _ _ w (record_edi-raises 6 (omega arith) _))

  abbrev test_of : Insn → String × Test W ℕ
  test_of i = (name_of i, stub record_edi (cpu.execute false false i))

  table : tests cpu ≡ map test_of instructions
  unfolding tests stub_vmclear stub_vmptrld stub_vmptrst stub_vmread stub_vmwrite stub_vmlaunch
      stub_vmresume stub_vmxoff stub_vmxon stub_invept stub_invvpid
  table = refl

  rounds : (w : W) → Checks (for_each (tests cpu) (run_one cpu)) w (all_undefined w)
  unfolding all_undefined
  rounds w =
      rw table (of_for_each_map test_of instructions (run_one cpu) λ i. round (name_of i) i w)

  module _ (control : Cr4 W) (cpu_has_vmx : Bool) where
    -- the machine behind the loop
    abbrev pub behind : W → W
    behind w =
        if vmxe (control.read_cr4 w)
        then control.write_cr4 (without_vmxe (control.read_cr4 w)) w
        else w

    -- setting the bit
    abbrev pub attempt : W → Fault × W
    attempt w = control.mov_cr4 (with_vmxe (control.read_cr4 w)) (behind w)

    xsa_278_main_effect :
        (w : W)
        → Effect
            (xsa_278_main cpu control cpu_has_vmx)
            w
            tt
            (if not cpu_has_vmx then (attempt w).1 else behind w)
            (max
              (max 1
                (grade (all_undefined (behind w) && (cpu_has_vmx || not (succeeds (attempt w).0)))))
              (if vmxe (control.read_cr4 w) then 3 else 0))
    unfolding xsa_278_main
    xsa_278_main_effect w =
        same
          (bind _ (of_run _ w) (
            bind _ (of_when_to _ (bind _ (of_error _ w) (of_run _ w))) (
              bind _ (rounds (behind w)).effect
                (bind _ (of_when_to _ (try control (behind w) _)) (of_success _ _)))))
          refl refl (weigh (vmxe (control.read_cr4 w)) cpu_has_vmx (all_undefined (behind w)) _)

    -- Where the instructions leave the machine as it is, the status is raised to that of a failure if one
    -- of the eleven instructions does not raise #UD, or the processor has no VT-x and CR4.VMXE can be set; else
    -- to that of an error if the bit was set at first; and else to that of a success.
    pub xsa_278_main_lem :
        (w : W) (r : Report)
        → value (xsa_278_main cpu control cpu_has_vmx (w, r)).1.1.status
          ≡ max
              (max
                (max 1 (
                  grade
                    (all_undefined (behind w) && (cpu_has_vmx || not (succeeds (attempt w).0)))))
                (if vmxe (control.read_cr4 w) then 3 else 0))
              (value r.status)
    xsa_278_main_lem w r = (of_Effect (xsa_278_main_effect w) r).1
