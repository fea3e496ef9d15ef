-- ===== src/Vmx.antt =====
-- arch/x86/vmx.c: the names of the VM instruction errors.
use Prim.Native.String.{String}
use xtf.Base.{ℕ, List, [], ◌∷◌, Option, some, none, get_or}

-- by the numbers of arch/x86/include/arch/x86-vmx.h; `none` is a null pointer
abbrev strings : List (Option String)
strings =
    none
    ∷ some "VMCALL_IN_ROOT"
    ∷ some "VMCLEAR_BAD_PADDR"
    ∷ some "VMCLEAR_WITH_VMXON_PTR"
    ∷ some "VMLAUNCH_NONCLEAR_VMCS"
    ∷ some "VMRESUME_NONLAUNCHED_VMCS"
    ∷ some "VMRESUME_AFTER_VMXOFF"
    ∷ some "INVALID_CONTROL_STATE"
    ∷ some "INVALID_HOST_STATE"
    ∷ some "VMPTRLD_BAD_PADDR"
    ∷ some "VMPTRLD_WITH_VMXON_PTR"
    ∷ some "VMPTRLD_BAD_REVID"
    ∷ some "UNSUPPORTED_VMCS_FIELD"
    ∷ some "VMWRITE_READONLY_FIELD"
    ∷ none
    ∷ some "VMXON_IN_ROOT"
    ∷ some "VMENTRY_BAD_EXECUTIVE"
    ∷ some "VMENTRY_NONLAUNCHED_EXECUTIVE"
    ∷ some "VMENTRY_WITHOUT_VMXON_PTR"
    ∷ some "VMCALL_NONCLEAR_VMCS"
    ∷ some "VMCALL_BAD_CONTROL_STATE"
    ∷ none
    ∷ some "VMCALL_BAD_MSEG_REVID"
    ∷ some "VMXOFF_UNDER_DUAL"
    ∷ some "VMCALL_BAD_SMM_MONITOR"
    ∷ some "BAD_EXECUTIVE_STATE"
    ∷ some "VMENTRY_MOVSS"
    ∷ none
    ∷ some "BAD_INV_OPERAND"
    ∷ []

abbrev or_unknown : Option String → String
or_unknown none = "<unknown>"
or_unknown (some name) = name

unfoldable pub vmx_insn_err_strerror : (err : ℕ) → String
vmx_insn_err_strerror err = or_unknown (get_or strings err none)
