-- ===== src/Suite/Invlpg.antt =====
-- tests/invlpg/main.c, for an environment of 64 bits.
pub mod Refill
use Prim.Native.String.{String}
use xtf.Base.{
  ℕ, zero, suc, ◌+◌, ◌-◌, ◌*◌, ◌/◌, ◌%◌, ◌^◌, ◌==◌, not, ◌&&◌, ◌||◌, ltb, Bool, true, false,
  if◌then◌else◌, List, [], ◌∷◌, none, some,
}
use xtf.Printf.Parse.{int, ptr}
use xtf.Report.{Report, literal, xtf_failure}
use xtf.Extable.{CpuRegs, Entry}
use xtf.Traps.{exinfo}
use xtf.Desc.{UserDesc, init_gdte, attr_common}
use xtf.Suite.{
  Test, ◌>>=◌, ◌>>◌, return, run, say, success, failure, when, message, Fault, for_each,
}

-- The handler of every invlpg: it reports, and returns behind the instruction.
unfoldable pub ex_fail : CpuRegs → Entry → Report → (Bool × CpuRegs) × Report
ex_fail regs ex r =
    let info = exinfo regs.entry_vector regs.error_code in
    (
      (true, record regs { ip = ex.fixup }),
      xtf_failure (message "    Fail: Unexpected fault %#x, %pe\n" (int info ∷ ptr info [] ∷ [])) r,
    )

-- the frame of a fault at an invlpg, with the registers that do not matter at 0
abbrev frame : ℕ → ℕ → CpuRegs
frame vec ec = record {
  ax = 0;
  cx = 0;
  dx = 0;
  di = 0;
  ip = 0;
  cs = 0;
  entry_vector = vec;
  error_code = ec;
}

-- an invlpg that faults or not
unfoldable pub handled : {W : Type 0} → Fault → Test W (Unit {0})
handled none s = (tt, s)
handled (some (vec, ec)) s =
    (tt, (s.0, (ex_fail (frame vec ec) (record { fault = 0; fixup = 0; handler = 1 }) s.1).1))

-- `_PAGE_AD` are bits 5 and 6.
unfoldable pub test_ad : ℕ → Bool
test_ad pte = pte / 2 ^ 5 % 4 == 3

-- What the processor does: the assembly of the two functions below, which yields the fault of invlpg
-- and the two pagetable entries behind it; a single invlpg; and the writes.
pub record Processor (W : Type 0) : Type 0 where
  pub refill : (fs : Bool) → W → (Fault × ℕ × ℕ) × W
  pub invlpg : (fs : Bool) (linear : ℕ) → W → Fault × W
  pub update_desc : (entry : ℕ) → UserDesc → W → W
  pub write_fs : ℕ → W → W
  pub wrmsr_fs_base : ℕ → W → W

abbrev bit : Bool → ℕ
bit b = if b then 1 else 0

module _ {W : Type 0} (cpu : Processor W) where
  unfoldable pub invlpg_refill : Test W ℕ
  invlpg_refill = do
    (fault, pte1, pte2) ← run (cpu.refill false)
    handled fault
    return (bit (test_ad pte1) + 2 * bit (test_ad pte2))

  unfoldable pub invlpg_fs_refill : Test W ℕ
  invlpg_fs_refill = do
    (fault, pte1, pte2) ← run (cpu.refill true)
    handled fault
    return (bit (test_ad pte1) + 2 * bit (test_ad pte2))

-- the `do` loop, with `tries` left behind this round
unfoldable pub refill_loop : {W : Type 0} → ℕ → Test W ℕ → Test W ℕ
refill_loop zero fn = fn
refill_loop (suc tries) fn = do
  ret ← fn
  let again = refill_loop tries fn
  if ret == 3 then again else return ret

-- cases 1 and 2 of the `switch`
unfoldable pub refill_of_one : {W : Type 0} → (expect ret : ℕ) → Test W (Unit {0})
refill_of_one expect ret = do
  say "    TLB refill of %#x\n" (int (ret * 0x1000) ∷ [])
  when (not (ret == expect)) (
      failure (
        message "    Fail: Expected mapping %#x to have been refilled\n"
          (int (expect * 0x1000) ∷ [])))

-- the `switch`
unfoldable pub refill_verdict : {W : Type 0} → (expect ret : ℕ) → Test W (Unit {0})
refill_verdict expect ret =
    if ret == 0
    then failure (message "    Fail: No TLB refill at all\n" [])
    else if (ret == 1) || (ret == 2)
    then refill_of_one expect ret
    else if ret == 3
    then say "    TLB refill of both 0x1000 and 0x2000\n" []
    else failure (message "    Fail: Unexpected return value %u\n" (int ret ∷ []))

unfoldable pub run_tlb_refill_test : {W : Type 0} → Test W ℕ → ℕ → Test W (Unit {0})
run_tlb_refill_test fn expect = do ret ← refill_loop 19 fn; refill_verdict expect ret

pub record TlbRefillFsTest : Type 0 where
  pub desc : String
  pub mapping : ℕ
  pub seg : UserDesc

-- P S G A B W, and the same without G
abbrev data_4k : ℕ
data_4k = 0xc093

abbrev data_bytes : ℕ
data_bytes = 0x4093

unfoldable pub tlb_refill_fs_tests : List TlbRefillFsTest
tlb_refill_fs_tests =
    record { desc = "(base 0x0)"; mapping = 1; seg = init_gdte 0 0xfffff data_4k }
    ∷ record { desc = "(base 0x0, limit 0x1)"; mapping = 1; seg = init_gdte 0 1 data_bytes }
    ∷ record { desc = "(base 0x1000)"; mapping = 2; seg = init_gdte 0x1000 0xfffff data_4k }
    ∷ record {
      desc = "(base 0x1000, limit 0x1001)";
      mapping = 2;
      seg = init_gdte 0x1000 0x1001 data_bytes;
    }
    ∷ []

abbrev pub gdte_avail0 : ℕ
gdte_avail0 = 9

-- a change of the machine
abbrev act : {W : Type 0} → (W → W) → Test W (Unit {0})
act f = run (λ w. (tt, f w))

module _ {W : Type 0} (cpu : Processor W) where
  unfoldable pub test_tlb_refill : Test W (Unit {0})
  test_tlb_refill = do
    say "Testing 'invlpg 0x1000' with segment bases\n" []
    say "  Test: No segment\n" []
    run_tlb_refill_test (invlpg_refill cpu) 1
    for_each tlb_refill_fs_tests λ t. do
      say "  Test: %%fs %s\n" (literal t.desc ∷ [])
      act (cpu.update_desc gdte_avail0 t.seg)
      act (cpu.write_fs (gdte_avail0 * 2 ^ 3))
      run_tlb_refill_test (invlpg_fs_refill cpu) t.mapping

  unfoldable pub invlpg_checked : ℕ → Test W (Unit {0})
  invlpg_checked linear = do fault ← run (cpu.invlpg false linear); handled fault

  unfoldable pub invlpg_fs_checked : ℕ → Test W (Unit {0})
  invlpg_fs_checked linear = do fault ← run (cpu.invlpg true linear); handled fault

  -- `test_main_address` is that of test_main().
  module _ (test_main_address : ℕ) where
    unfoldable pub test_no_fault : Test W (Unit {0})
    test_no_fault = do
      say "Testing 'invlpg' in normally-faulting conditions\n" []
      say "  Test: Mapped address\n" []
      invlpg_checked test_main_address
      say "  Test: Unmapped address\n" []
      invlpg_checked 0
      say "  Test: NULL segment override\n" []
      act (cpu.write_fs 0)
      invlpg_fs_checked 0
      say "  Test: Past segment limit\n" []
      act (cpu.update_desc gdte_avail0 (init_gdte 0 1 0xc093))
      act (cpu.write_fs (gdte_avail0 * 2 ^ 3))
      invlpg_fs_checked 0x2000
      say "  Test: Before expand-down segment limit\n" []
      act (cpu.update_desc gdte_avail0 (init_gdte 0 1 0xc097))
      act (cpu.write_fs (gdte_avail0 * 2 ^ 3))
      invlpg_fs_checked 0
      say "  Test: Noncanonical address\n" []
      invlpg_checked 0x800000000000
      say "  Test: Noncanonical including segment base\n" []
      act (cpu.write_fs 0)
      act (cpu.wrmsr_fs_base (2 ^ 47 - 1))
      invlpg_fs_checked (2 ^ 47 - 1)

    -- with CONFIG_PAGING_LEVELS at 4
    unfoldable pub invlpg_main : Test W (Unit {0})
    invlpg_main = do test_tlb_refill; test_no_fault; success none
