-- ===== src/Tests/Msr.antt =====
-- arch/x86/msr.c at concrete inputs.
use xtf.Base.{ℕ, ◌≤◌, refl, true, false, [], ◌∷◌, arith}
use xtf.Report.{initial, value}
use xtf.Msr.{Processor, TestVal, xtf_msr_consistency_test}
use xtf.Msr.Detect.{IsCoherent, xtf_msr_consistency_test-finds}

-- a processor with one register, which keeps what is written
abbrev plain : Processor ℕ
plain = record {
  wrmsr = λ msr v w. v;
  rdmsr = λ msr w. (w, w);
  force_wrmsr = λ msr v w. v;
  force_rdmsr = λ msr w. (w, w);
}

-- one that drops real writes
abbrev stuck : Processor ℕ
stuck = record {
  wrmsr = λ msr v w. 0;
  rdmsr = λ msr w. (w, w);
  force_wrmsr = λ msr v w. v;
  force_rdmsr = λ msr w. (w, w);
}

abbrev skipped : TestVal
skipped = record { val = 3; pred = false }

abbrev tested : TestVal
tested = record { val = 5; pred = true }

plain-IsCoherent : IsCoherent plain 0x1b (λ w. w)
plain-IsCoherent = record {
  writes = λ v w. refl;
  force_writes = λ v w. refl;
  reads = λ w. refl;
  keeps = λ w. refl;
  force_reads = λ w. refl;
}

xtf_msr_consistency_test-finds_example :
    4
    ≤ value (xtf_msr_consistency_test stuck 0x1b true (skipped ∷ tested ∷ []) (7, initial)).1.status
xtf_msr_consistency_test-finds_example =
    xtf_msr_consistency_test-finds stuck 0x1b true (skipped ∷ []) [] tested (7, initial) refl
      (λ w e. omega arith)
