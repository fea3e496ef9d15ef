-- ===== src/Suite/Umip.antt =====
-- tests/umip/main.c. The machine comes with `once`, the static variable of test_insns().
pub mod Rounds
pub mod Verdict
use Prim.Native.String.{String}
use xtf.Base.{
  ℕ, ◌+◌, ◌-◌, ◌/◌, ◌%◌, ◌^◌, ◌==◌, not, ◌&&◌, Bool, true, false, if◌then◌else◌, List, [], ◌∷◌,
  none,
}
use xtf.Printf.Parse.{int, ptr}
use xtf.Report.{literal}
use xtf.Suite.{
  Test, ◌>>=◌, ◌>>◌, return, run, success, skip, failure, when, message, Cpu, Cr4, Fault,
  write_cr4_safe, record_eax, stub, exinfo_sym, exc_ud, exc_gp, for_each,
}

-- the instructions, with memory or a register as the operand
pub data Insn : Type 0 where
  sgdt sidt sldt str smsw : Insn

abbrev pub World : Type 0 → Type 0
World W = W × Bool

-- `struct stub`
pub record Stub (W : Type 0) : Type 0 where
  pub fn : Bool → Test (World W) ℕ
  pub user_fn : Bool → Test (World W) ℕ
  pub name : String

-- `cr4 | X86_CR4_UMIP` and `cr4 & ~X86_CR4_UMIP`
abbrev pub with_umip : ℕ → ℕ
with_umip cr4 = if cr4 / 2 ^ 11 % 2 == 1 then cr4 else cr4 + 2 ^ 11

abbrev pub without_umip : ℕ → ℕ
without_umip cr4 = if cr4 / 2 ^ 11 % 2 == 1 then cr4 - 2 ^ 11 else cr4

-- an instruction beside the static variable
abbrev pub beside : {W : Type 0} → (W → Fault × W) → World W → Fault × World W
beside insn s = ((insn s.0).0, ((insn s.0).1, s.1))

abbrev pub cr4_beside : {W : Type 0} → Cr4 W → Cr4 (World W)
cr4_beside control = record {
  read_cr4 = λ s. control.read_cr4 s.0;
  write_cr4 = λ v s. (control.write_cr4 v s.0, s.1);
  mov_cr4 = λ v. beside (control.mov_cr4 v);
}

module _ {W : Type 0} (cpu : Cpu W Insn) where
  unfoldable pub stub_sgdt : Bool → Test (World W) ℕ
  stub_sgdt force = stub record_eax (beside (cpu.execute false force Insn.sgdt))

  unfoldable pub stub_sidt : Bool → Test (World W) ℕ
  stub_sidt force = stub record_eax (beside (cpu.execute false force Insn.sidt))

  unfoldable pub stub_sldt : Bool → Test (World W) ℕ
  stub_sldt force = stub record_eax (beside (cpu.execute false force Insn.sldt))

  unfoldable pub stub_str : Bool → Test (World W) ℕ
  stub_str force = stub record_eax (beside (cpu.execute false force Insn.str))

  unfoldable pub stub_smsw : Bool → Test (World W) ℕ
  stub_smsw force = stub record_eax (beside (cpu.execute false force Insn.smsw))

  unfoldable pub stub_user_sgdt : Bool → Test (World W) ℕ
  stub_user_sgdt force = stub record_eax (beside (cpu.execute true force Insn.sgdt))

  unfoldable pub stub_user_sidt : Bool → Test (World W) ℕ
  stub_user_sidt force = stub record_eax (beside (cpu.execute true force Insn.sidt))

  unfoldable pub stub_user_sldt : Bool → Test (World W) ℕ
  stub_user_sldt force = stub record_eax (beside (cpu.execute true force Insn.sldt))

  unfoldable pub stub_user_str : Bool → Test (World W) ℕ
  stub_user_str force = stub record_eax (beside (cpu.execute true force Insn.str))

  unfoldable pub stub_user_smsw : Bool → Test (World W) ℕ
  stub_user_smsw force = stub record_eax (beside (cpu.execute true force Insn.smsw))

  unfoldable pub stubs : List (Stub W)
  stubs =
      record { fn = stub_sgdt; user_fn = stub_user_sgdt; name = "SGDT" }
      ∷ record { fn = stub_sidt; user_fn = stub_user_sidt; name = "SIDT" }
      ∷ record { fn = stub_sldt; user_fn = stub_user_sldt; name = "SLDT" }
      ∷ record { fn = stub_str; user_fn = stub_user_str; name = "STR" }
      ∷ record { fn = stub_smsw; user_fn = stub_user_smsw; name = "SMSW" }
      ∷ []

-- an emulator that does not know the instruction
unfoldable pub tolerate : {W : Type 0} → String → Test (World W) (Unit {0})
tolerate name = do
  once ← run (λ s. (s.1, s))
  when (not once) (
      skip (message "Skip: Emulator doesn't implement %s\n" (literal name ∷ []))
      >> run (λ s. (tt, (s.0, true))))

abbrev sign : Bool → ℕ
sign b = if b then b'+' else b'-'

-- what a round of the inner loop does with the result
unfoldable pub judge :
    {W : Type 0} → (umip_active force user : Bool) → String → ℕ → Test (World W) (Unit {0})
judge umip_active force user name ret =
    let exp = if user && umip_active then exinfo_sym exc_gp 0 else 0 in
    let m = message "Fail: %s %s (UMIP%c, FEP%c)\n  expected %pe\n       got %pe\n" (
      literal (if user then "user" else "supervisor")
      ∷ literal name
      ∷ int (sign umip_active)
      ∷ int (sign force)
      ∷ ptr exp []
      ∷ ptr ret []
      ∷ []) in
    if force && (ret == exinfo_sym exc_ud 0)
    then tolerate name
    else when (not (ret == exp)) (failure m)

unfoldable pub round :
    {W : Type 0} → (umip_active force user : Bool) → Stub W → Test (World W) (Unit {0})
round umip_active force user s = do
  ret ← if user then s.user_fn force else s.fn force
  judge umip_active force user s.name ret

module _ {W : Type 0} (cpu : Cpu W Insn) where
  -- The outer loop runs with `user` false, and then true.
  unfoldable pub test_insns : (umip_active force : Bool) → Test (World W) (Unit {0})
  test_insns umip_active force =
      for_each (false ∷ true ∷ []) λ user. for_each (stubs cpu) (round umip_active force user)

  module _ (control : Cr4 W) (xtf_has_fep cpu_has_umip : Bool) where
    unfoldable pub test_umip : Bool → Test (World W) (Unit {0})
    test_umip umip_active = do
      test_insns umip_active false
      when xtf_has_fep (test_insns umip_active true)

    -- behind `if ( !cpu_has_umip )`
    unfoldable pub unsupported : Test (World W) (Unit {0})
    unsupported = do
      skip (message "UMIP is not supported, skip the rest of test\n" [])
      cr4 ← run (λ s. (control.read_cr4 s.0, s))
      faulted ← write_cr4_safe (cr4_beside control) (with_umip cr4)
      when (not faulted) (failure (message "UMIP unsupported, but setting CR4 bit succeeded\n" []))

    -- behind the activation
    unfoldable pub activated : Test (World W) (Unit {0})
    activated = do
      test_umip true
      cr4 ← run (λ s. (control.read_cr4 s.0, s))
      faulted ← write_cr4_safe (cr4_beside control) (without_umip cr4)
      let rest : Test (World W) (Unit {0}) = test_umip false >> success none
      if faulted then failure (message "Fail: Unable to deactivate UMIP\n" []) else rest

    unfoldable pub umip_main : Test (World W) (Unit {0})
    umip_main = do
      when (not xtf_has_fep)
          (skip (message "FEP support not detected - some tests will be skipped\n" []))
      test_umip false
      let supported : Test (World W) (Unit {0}) = do
        cr4 ← run (λ s. (control.read_cr4 s.0, s))
        faulted ← write_cr4_safe (cr4_beside control) (with_umip cr4)
        if faulted then failure (message "Fail: Unable to activate UMIP\n" []) else activated
      if not cpu_has_umip then unsupported else supported
