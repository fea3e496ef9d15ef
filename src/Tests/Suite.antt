-- ===== src/Tests/Suite.antt =====
-- Programs under tests/ and selftests/ at concrete inputs.
use xtf.Base.{
  ℕ, suc, ◌+◌, ◌/◌, ◌%◌, ◌^◌, ◌≡◌, refl, max, ◌==◌, ◌&&◌, Bool, true, false, if◌then◌else◌, List,
  [], ◌∷◌, some, none, length,
}
use xtf.Base.Int.{pos, negsuc}
use xtf.Base.Run.{Returns}
use xtf.Report.{value, initial}
use xtf.Suite.{Cpu, Cr4, Fault, Test}
use xtf.Suite.CpuidFaulting.{Msrs, cpuid_faulting_main, with_faulting}
use xtf.Suite.CpuidFaulting.Verdict.{KeepsMsrs, behaves, cpuid_faulting_main_lem}
use xtf.Suite.Xsa278.{vmxe, xsa_278_main}
use xtf.Suite.Xsa278.Verdict.{all_undefined, xsa_278_main_lem}
use xtf.Suite.Umip.{umip_main}
use xtf.Suite.Umip.Verdict.{umip_main_lem}
use xtf.Suite.Umip.Rounds.{find_insns}
use xtf.Suite.Invlpg.{run_tlb_refill_test}
use xtf.Suite.Invlpg.Refill.{Counts, after, result, worth, run_tlb_refill_test_lem}
use xtf.Suite.Argo.{argo_main, simple_text, msg_type}
use xtf.Suite.Argo.Abi.{Xen}
use xtf.Suite.Argo.Buffer.{zeros}
use xtf.Suite.Argo.Accepted.{KeepsRings, filled, argo_main_lem}
use xtf.Suite.HeapsortTest.{int_of, heapsort_test_main}
use xtf.Suite.HeapsortTest.Passes.{heapsort_test_main_lem}
use xtf.Suite.Swint.{Gate, swint_main}
use xtf.Suite.Swint.Rules.{delivered, agrees, all_agree}
use xtf.Suite.Swint.Verdict.{swint_main_lem}

-- A processor with the value of MISC_FEATURES_ENABLES as its state, on which a user's cpuid faults where
-- the value is odd.
abbrev cpuid_cpu : Cpu ℕ xtf.Suite.CpuidFaulting.Insn
cpuid_cpu = record {
  execute = λ user fep i w. (if user && (w % 2 == 1) then some (13, 0) else none, w);
}

abbrev msrs : Msrs ℕ
msrs = record {
  rdmsr_safe = λ msr w. ((false, if msr == 0xce then 2 ^ 31 else w), w);
  wrmsr_safe = λ msr v w. (false, v);
}

msrs-KeepsMsrs : KeepsMsrs cpuid_cpu msrs true (λ w. w) (λ v w. v)
msrs-KeepsMsrs = record {
  executes = λ user fep w. refl;
  platform_info = 2 ^ 31;
  has = refl;
  reads_info = λ w. refl;
  reads = λ w. refl;
  writes = λ v w. refl;
}

cpuid_faulting_main_lem_example :
    ((cpuid_faulting_main cpuid_cpu msrs false true (4, initial)).1.0 ≡ 4)
    × (value (cpuid_faulting_main cpuid_cpu msrs false true (4, initial)).1.1.status ≡ 1)
unfolding behaves
cpuid_faulting_main_lem_example =
    cpuid_faulting_main_lem cpuid_cpu msrs false true true (λ w. w) (λ v w. v) msrs-KeepsMsrs 4
      initial

-- a processor without VT-x, with CR4 as its state
abbrev plain_cpu : Cpu ℕ xtf.Suite.Xsa278.Insn
plain_cpu = record { execute = λ user fep i w. (some (6, 0), w) }

abbrev plain_cr4 : Cr4 ℕ
plain_cr4 = record { read_cr4 = λ w. w; write_cr4 = λ v w. v; mov_cr4 = λ v w. (some (13, 0), w) }

xsa_278_main_lem_example :
    value (xsa_278_main plain_cpu plain_cr4 false (0x20, initial)).1.1.status ≡ 1
unfolding all_undefined
xsa_278_main_lem_example = xsa_278_main_lem plain_cpu (λ i w. refl) plain_cr4 false 0x20 initial

-- a processor with UMIP, with CR4 as its state
abbrev umip_cpu : Cpu ℕ xtf.Suite.Umip.Insn
umip_cpu = record {
  execute = λ user fep i w. (if user && (w / 2 ^ 11 % 2 == 1) then some (13, 0) else none, w);
}

abbrev umip_cr4 : Cr4 ℕ
umip_cr4 = record { read_cr4 = λ w. w; write_cr4 = λ v w. v; mov_cr4 = λ v w. (none, v) }

umip_main_lem_example :
    ((umip_main umip_cpu umip_cr4 true true ((0x20, false), initial)).1.0 ≡ (0x20, false))
    × (value (umip_main umip_cpu umip_cr4 true true ((0x20, false), initial)).1.1.status ≡ 1)
unfolding find_insns
umip_main_lem_example =
    umip_main_lem umip_cpu umip_cr4 true (λ u f i w. refl) (λ v w. v) (λ v w. refl) 0x20 initial

-- two rounds that race, and one that finds the first page
abbrev refilled : Test ℕ ℕ
refilled s = (if s.0 == 2 then 1 else 3, (s.0 + 1, s.1))

run_tlb_refill_test_lem_example :
    (n : ℕ) × Counts refilled 19 (0, initial) n
    × ((run_tlb_refill_test refilled 1 (0, initial)).1.0 ≡ (after refilled (suc n) (0, initial)).0)
    × (value (run_tlb_refill_test refilled 1 (0, initial)).1.1.status
        ≡ max
            (worth 1 (result refilled n (0, initial)))
            (value (after refilled (suc n) (0, initial)).1.status))
run_tlb_refill_test_lem_example = run_tlb_refill_test_lem refilled 1 (0, initial)

-- a Xen whose state is whether the ring is there
abbrev rings : Xen Bool
rings = record {
  register_ring =
      λ reg gfns flags s. if reg.reg_len == 1 then (negsuc 21, s) else (pos 0, (true, s.1));
  unregister_ring = λ reg s. if s.0 then (pos 0, (false, s.1)) else (negsuc 1, s);
  notify = λ ring s. ((pos 0, if s.0 then 1 else 0), s);
  sendv = λ src dst text type s. (pos (length text), (s.0, filled 5 text type []));
}

rings-KeepsRings : KeepsRings rings [] 5 false true
rings-KeepsRings = record {
  refuses = λ ring. refl;
  adds = λ ring. refl;
  removes = λ ring. refl;
  misses = λ ring. refl;
  flags = 1;
  exists_flag = refl;
  tells = λ ring. refl;
  denies = λ ring. refl;
  rest = [];
  sends = λ text type. refl;
}

argo_main_lem_example :
    ((argo_main rings [] (pos 5) ((false, zeros), initial)).1.0
      ≡ (false, filled 5 simple_text msg_type rings-KeepsRings.rest))
    × (value (argo_main rings [] (pos 5) ((false, zeros), initial)).1.1.status ≡ 1)
argo_main_lem_example = argo_main_lem rings [] 5 false true rings-KeepsRings zeros 5 initial refl

heapsort_test_main_lem_example :
    Returns (λ r. r.0 ≡ 0) (heapsort_test_main (int_of 7 ∷ int_of 3 ∷ int_of 9 ∷ []))
heapsort_test_main_lem_example = heapsort_test_main_lem (int_of 7 ∷ int_of 3 ∷ int_of 9 ∷ [])

abbrev stack : List ℕ
stack = 1 ∷ 2 ∷ 3 ∷ 4 ∷ []

-- a processor that delivers by the rules
abbrev rules : xtf.Suite.Swint.Processor ℕ
rules = record { execute = λ user fep addr i s. (delivered user i s.1, s) }

abbrev no_gate : Gate
no_gate = record { p = false; dpl = 0 }

abbrev gates : Bool → ℕ → Gate
gates present dpl = record { p = present; dpl = dpl }

swint_main_lem_example :
    ((swint_main rules true
        ((0, record { db = no_gate; bp = no_gate; of_gate = no_gate }), initial)).1.0
      ≡ (0, record { db = gates true 3; bp = gates true 3; of_gate = gates true 3 }))
    × (value
          (swint_main rules true
            ((0, record { db = no_gate; bp = no_gate; of_gate = no_gate }), initial)).1.1.status
        ≡ 1)
unfolding agrees all_agree
swint_main_lem_example =
    swint_main_lem rules true (λ u f a i s. refl) 0
      (record { db = no_gate; bp = no_gate; of_gate = no_gate }) initial
