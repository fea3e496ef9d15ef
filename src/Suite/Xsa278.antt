-- ===== src/Suite/Xsa278.antt =====
-- tests/xsa-278/main.c.
pub mod Verdict
use Prim.Native.String.{String}
use xtf.Base.{
  ℕ, ◌+◌, ◌-◌, ◌/◌, ◌%◌, ◌^◌, ◌==◌, not, ◌&&◌, Bool, true, false, if◌then◌else◌, List, [], ◌∷◌,
}
use xtf.Printf.Parse.{ptr}
use xtf.Report.{literal}
use xtf.Suite.{
  Test, ◌>>=◌, ◌>>◌, return, report, run, success, error, failure, when, message, Cpu, Cr4, Fault,
  write_cr4_safe, record_edi, stub, exinfo_sym, exc_ud, for_each,
}

-- the instructions of VT-x, with the operands that the stubs give them
pub data Insn : Type 0 where
  vmclear vmptrld vmptrst vmread vmwrite vmlaunch vmresume vmxoff vmxon invept invvpid : Insn

-- `cr4 & X86_CR4_VMXE`
abbrev pub vmxe : ℕ → Bool
vmxe cr4 = cr4 / 2 ^ 13 % 2 == 1

-- `cr4 | X86_CR4_VMXE` and `cr4 & ~X86_CR4_VMXE`
abbrev pub with_vmxe : ℕ → ℕ
with_vmxe cr4 = if vmxe cr4 then cr4 else cr4 + 2 ^ 13

abbrev pub without_vmxe : ℕ → ℕ
without_vmxe cr4 = if vmxe cr4 then cr4 - 2 ^ 13 else cr4

-- the check at the end, without the feature
unfoldable pub try_vmxe : {W : Type 0} → Cr4 W → ℕ → Test W (Unit {0})
try_vmxe control cr4 = do
  faulted ← write_cr4_safe control (with_vmxe cr4)
  when (not faulted) (failure (message "Fail: CR4.VMXE settable without feature\n" []))

module _ {W : Type 0} (cpu : Cpu W Insn) where
  unfoldable pub stub_vmclear : Test W ℕ
  stub_vmclear = stub record_edi (cpu.execute false false Insn.vmclear)

  unfoldable pub stub_vmptrld : Test W ℕ
  stub_vmptrld = stub record_edi (cpu.execute false false Insn.vmptrld)

  unfoldable pub stub_vmptrst : Test W ℕ
  stub_vmptrst = stub record_edi (cpu.execute false false Insn.vmptrst)

  unfoldable pub stub_vmread : Test W ℕ
  stub_vmread = stub record_edi (cpu.execute false false Insn.vmread)

  unfoldable pub stub_vmwrite : Test W ℕ
  stub_vmwrite = stub record_edi (cpu.execute false false Insn.vmwrite)

  unfoldable pub stub_vmlaunch : Test W ℕ
  stub_vmlaunch = stub record_edi (cpu.execute false false Insn.vmlaunch)

  unfoldable pub stub_vmresume : Test W ℕ
  stub_vmresume = stub record_edi (cpu.execute false false Insn.vmresume)

  unfoldable pub stub_vmxoff : Test W ℕ
  stub_vmxoff = stub record_edi (cpu.execute false false Insn.vmxoff)

  unfoldable pub stub_vmxon : Test W ℕ
  stub_vmxon = stub record_edi (cpu.execute false false Insn.vmxon)

  unfoldable pub stub_invept : Test W ℕ
  stub_invept = stub record_edi (cpu.execute false false Insn.invept)

  unfoldable pub stub_invvpid : Test W ℕ
  stub_invvpid = stub record_edi (cpu.execute false false Insn.invvpid)

  -- `struct test` as a pair of its fields
  unfoldable pub tests : List (String × Test W ℕ)
  tests =
      ("vmclear", stub_vmclear)
      ∷ ("vmptrld", stub_vmptrld)
      ∷ ("vmptrst", stub_vmptrst)
      ∷ ("vmread", stub_vmread)
      ∷ ("vmwrite", stub_vmwrite)
      ∷ ("vmlaunch", stub_vmlaunch)
      ∷ ("vmresume", stub_vmresume)
      ∷ ("vmxoff", stub_vmxoff)
      ∷ ("vmxon", stub_vmxon)
      ∷ ("invept", stub_invept)
      ∷ ("invvpid", stub_invvpid)
      ∷ []

  -- a round of the loop
  unfoldable pub run_one : String × Test W ℕ → Test W (Unit {0})
  run_one (name, fn) = do
    ex ← fn
    when (not (ex == exinfo_sym exc_ud 0))
        (failure (message "Fail: %s, got %pe, expected #UD\n" (literal name ∷ ptr ex [] ∷ [])))

  module _ (control : Cr4 W) (cpu_has_vmx : Bool) where
    unfoldable pub xsa_278_main : Test W (Unit {0})
    xsa_278_main = do
      cr4 ← run (λ w. (control.read_cr4 w, w))
      when (vmxe cr4) (
          error (message "Error: CR4.VMXE found unexpectedly set\n" [])
          >> run (λ w. (tt, control.write_cr4 (without_vmxe cr4) w)))
      for_each tests run_one
      when (not cpu_has_vmx) (try_vmxe control cr4)
      success (message "Success: Probably not vulnerable to XSA-278\n" [])
