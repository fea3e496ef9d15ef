-- ===== src/Tss.antt =====
-- arch/x86/x86-tss.c: what it prints of a Task State Segment.
use xtf.Base.{ℕ, List, [], ◌∷◌, get_or}
use xtf.Printf.Parse.{Arg, int, long, ptr}
use xtf.Report.{Report, printk}

-- `struct x86_tss32` of arch/x86/include/arch/x86-tss.h, without its padding
pub record X86Tss32 : Type 0 where
  pub link : ℕ
  pub esp0 : ℕ
  pub ss0 : ℕ
  pub esp1 : ℕ
  pub ss1 : ℕ
  pub esp2 : ℕ
  pub ss2 : ℕ
  pub cr3 : ℕ
  pub eip : ℕ
  pub eflags : ℕ
  pub eax : ℕ
  pub ecx : ℕ
  pub edx : ℕ
  pub ebx : ℕ
  pub esp : ℕ
  pub ebp : ℕ
  pub esi : ℕ
  pub edi : ℕ
  pub es : ℕ
  pub cs : ℕ
  pub ss : ℕ
  pub ds : ℕ
  pub fs : ℕ
  pub gs : ℕ
  pub ldtr : ℕ
  pub trace : ℕ
  pub iopb : ℕ

-- `struct x86_tss64`, with the seven elements of `ist`
pub record X86Tss64 : Type 0 where
  pub rsp0 : ℕ
  pub rsp1 : ℕ
  pub rsp2 : ℕ
  pub ist : List ℕ
  pub trace : ℕ
  pub iopb : ℕ

-- `address` is the value of the pointer.
unfoldable pub dump_x86_tss32 : (address : ℕ) → X86Tss32 → Report → Report
dump_x86_tss32 address t r =
    printk
      "Dump x86_tss32 at %p {\n  link %04x\n  r0 %04x:%08x\n  r1 %04x:%08x\n  r2 %04x:%08x\n  cr3 %08x\n  eip %08x, eflags %08x\n  eax %08x, ecx %08x\n  edx %08x, ebx %08x\n  esp %08x, ebp %08x\n  esi %08x, edi %08x\n  es %04x, cs %04x, ss %04x\n  ds %04x, fs %04x, gs %04x\n  ldtr %04x, trace %u, iobp %04x\n}\n"
      (ptr address []
        ∷ int t.link
        ∷ int t.ss0
        ∷ int t.esp0
        ∷ int t.ss1
        ∷ int t.esp1
        ∷ int t.ss2
        ∷ int t.esp2
        ∷ int t.cr3
        ∷ int t.eip
        ∷ int t.eflags
        ∷ int t.eax
        ∷ int t.ecx
        ∷ int t.edx
        ∷ int t.ebx
        ∷ int t.esp
        ∷ int t.ebp
        ∷ int t.esi
        ∷ int t.edi
        ∷ int t.es
        ∷ int t.cs
        ∷ int t.ss
        ∷ int t.ds
        ∷ int t.fs
        ∷ int t.gs
        ∷ int t.ldtr
        ∷ int t.trace
        ∷ int t.iopb
        ∷ [])
      r

-- PRIx64 is "lx" where `long` has 64 bits.
unfoldable pub dump_x86_tss64 : (address : ℕ) → X86Tss64 → Report → Report
dump_x86_tss64 address t r =
    let ist : ℕ → Arg = λ i. long (get_or t.ist i 0) in
    printk
      "Dump x86_tss64 at %p {\n  rsp0 %016lx, rsp1 %016lx\n  rsp2 %016lx, ist1 %016lx\n  ist2 %016lx, ist3 %016lx\n  ist4 %016lx, ist5 %016lx\n  ist6 %016lx, ist7 %016lx\n  trace %u, iobp %04x\n}\n"
      (ptr address []
        ∷ long t.rsp0
        ∷ long t.rsp1
        ∷ long t.rsp2
        ∷ ist 0
        ∷ ist 1
        ∷ ist 2
        ∷ ist 3
        ∷ ist 4
        ∷ ist 5
        ∷ ist 6
        ∷ int t.trace
        ∷ int t.iopb
        ∷ [])
      r
