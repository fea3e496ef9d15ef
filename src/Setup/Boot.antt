-- ===== src/Setup/Boot.antt =====
-- map_shared_info() and test_setup() of arch/x86/setup.c.
use xtf.Base.{ℕ, zero, suc, ◌+◌, not, ◌&&◌, Bool, if◌then◌else◌, [], Option, some, none}
use xtf.Base.Int.{ℤ, pos, negsuc}
use xtf.Base.Text.{codes}
use xtf.Paging.{virt_to_pfn}
use xtf.Report.{Report, printk, xtf_skip}

-- the hypercalls of map_shared_info()
pub record SharedInfo (W : Type 0) : Type 0 where
  pub add_to_physmap : (gfn : ℕ) → W → ℤ × W
  pub map_page : (linear npte flags : ℕ) → W → ℤ × W

abbrev pub unless_error : {W : Type 0} → ℤ × W → Option W
unless_error (pos zero, w) = some w
unless_error (pos (suc n), w) = none
unless_error (negsuc n, w) = none

-- For the address of `shared_info`, and for a PV guest the machine address that the start info names,
-- which is at the start of a page. PF_SYM(RW, P) is 3 and UVMF_INVLPG is 2; `none` is a panic.
unfoldable pub map_shared_info :
    {W : Type 0} → SharedInfo W → (hvm : Bool) (shared_info start_info : ℕ) → W → Option W
map_shared_info xen hvm shared_info start_info w =
    if hvm
    then unless_error (xen.add_to_physmap (virt_to_pfn shared_info) w)
    else unless_error (xen.map_page shared_info (start_info + 3) 2 w)

-- For what the instruction with the forced emulation prefix leaves in its operand: `xtf_has_fep` and the
-- report.
unfoldable pub test_setup : (fep test_needs_fep : Bool) → Report → Bool × Report
test_setup fep test_needs_fep r =
    let skipped =
      xtf_skip (some (codes "compiled in, and booted with 'hvm_fep'?)\n", []))
        (printk "FEP unavailable, but needed by test. (Is Xen support\n" [] r) in
    (fep, if test_needs_fep && not fep then skipped else r)
