-- ===== src/Suite/Faults.antt =====
-- What a recorded fault tells.
use xtf.Base.{
  ℕ, ◌%◌, ◌^◌, ◌<◌, ◌≡◌, refl, ap, not, ◌==◌, ◌&&◌, Bool, true, false, if◌then◌else◌, none, some,
  arith,
}
use xtf.Traps.{exinfo, ex_record_fault_eax, ex_record_fault_edi}
use xtf.Suite.Effect.{Effect, bind, of_run, of_return, same}
use xtf.Suite.{Cr4, return, write_cr4_safe, stub, Fault, record_eax, record_edi, exinfo_sym, exc_gp}

-- an exception with this vector and no error code, or one of 0
abbrev pub raises : ℕ → Fault → Bool
raises exc none = false
raises exc (some (vec, ec)) = (vec % 256 == exc) && (ec % 2 ^ 16 == 0)

abbrev pub succeeds : Fault → Bool
succeeds none = true
succeeds (some _) = false

-- #GP[0] where `faults`, and success otherwise
abbrev pub is_expected : (faults : Bool) → Fault → Bool
is_expected faults fault = if faults then raises 13 fault else succeeds fault

-- `faults ? EXINFO_SYM(GP, 0) : 0`
abbrev pub gp_if : Bool → ℕ
gp_if faults = if faults then exinfo_sym exc_gp 0 else 0

pub record_eax-raises :
    (exc : ℕ)
    → exc < 256
    → (fault : Fault) → (record_eax fault == exinfo_sym exc 0) ≡ raises exc fault
unfolding record_eax ex_record_fault_eax exinfo
record_eax-raises exc h none = ground (arith, h)
record_eax-raises exc h (some (vec, ec)) = ground (arith, h)

pub record_edi-raises :
    (exc : ℕ)
    → exc < 256
    → (fault : Fault) → (record_edi fault == exinfo_sym exc 0) ≡ raises exc fault
unfolding record_edi ex_record_fault_edi exinfo
record_edi-raises exc h none = ground (arith, h)
record_edi-raises exc h (some (vec, ec)) = ground (arith, h)

pub record_eax-expected :
    (faults : Bool) (fault : Fault) → (record_eax fault == gp_if faults) ≡ is_expected faults fault
unfolding record_eax ex_record_fault_eax exinfo
record_eax-expected true fault = record_eax-raises 13 (omega arith) fault
record_eax-expected false none = refl
record_eax-expected false (some (vec, ec)) = ground arith

pub record_edi-expected :
    (faults : Bool) (fault : Fault) → (record_edi fault == gp_if faults) ≡ is_expected faults fault
unfolding record_edi ex_record_fault_edi exinfo
record_edi-expected true fault = record_edi-raises 13 (omega arith) fault
record_edi-expected false none = refl
record_edi-expected false (some (vec, ec)) = ground arith

pub of_write_cr4_safe :
    {W : Type 0} (control : Cr4 W) (v : ℕ) (w : W)
    → Effect
        (write_cr4_safe control v)
        w
        (not (succeeds (control.mov_cr4 v w).0))
        (control.mov_cr4 v w).1
        0
unfolding write_cr4_safe stub
of_write_cr4_safe control v w =
    same (bind (λ fault. return (not (fault == 0))) (of_run _ w) (of_return _ _))
      (ap not (record_edi-expected false (control.mov_cr4 v w).0)) refl refl
