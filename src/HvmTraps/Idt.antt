-- ===== src/HvmTraps/Idt.antt =====
-- arch_init_traps() of an HVM guest.
use xtf.Base.{
  ℕ, ◌<◌, ◌≤◌, ◌^◌, ◌≡◌, ◌∙◌, ◌==◌, ◌&&◌, ◌||◌, leb, ltb, Bool, true, false, Bool-cases, inl, inr,
  if◌then◌else◌, List, length, set, get_elem?, Option, some, length-set, arith,
}
use mathlib.Core.Option
use xtf.Base.Run.{Returns, returned, Returns-bind}
use xtf.Heapsort.Array.{get_elem?-set}
use xtf.Desc.{Gate64, gate64_lo, gate64_hi, pack_intr_gate, UserDesc, pack_tss_desc, user_desc_base}
use xtf.Desc.Segments.{pack_ldt_desc_lem}
use xtf.HvmTraps.{vectors, put_tss, Symbols, Tables, gfn_of, arch_init_traps}
use xtf.Desc.Gates.{ReadsAs, pack_x86_gate64_lem}
use xtf.HvmTraps.Remap.{Remapped, remap_user-Remapped, user_page, remapped_thrice}
use xtf.HvmTraps.Gates.{pack_all-Packed, packed_gates, expected, has_gate}

-- The slot `i` of the table: one that has_gate() names has a present interrupt gate, type 14, in the segment 8 with
-- the vector's entry point; the others are as before.
pub data Slot (entry : ℕ → ℕ) (i : ℕ) (before : Option Gate64) : Option Gate64 → Type 0 where
  interrupt_gate :
      (g : Gate64)
      → has_gate i ≡ true
      → ReadsAs
          (gate64_lo g)
          (gate64_hi g)
          14
          8
          (entry i)
          (if i == 3 || (i == 4 || i == 32) then 3 else 0)
          (if i == 8 then 1 else 0)
      → Slot entry i before (some g)
  unchanged : has_gate i ≡ false → Slot entry i before before

-- the page is one of those from the address `start` to `end`, exclusively
abbrev pub is_in : (start end i : ℕ) → Bool
is_in start end i = leb (gfn_of start) i && ltb i (gfn_of end)

abbrev pub in_user_section : Symbols → ℕ → Bool
in_user_section s i =
    is_in s.start_user_text s.end_user_text i
    || (is_in s.start_user_data s.end_user_data i || is_in s.start_user_bss s.end_user_bss i)

-- What arch_init_traps() makes of the tables.
pub record Initialised (symbols : Symbols) (before after : Tables) : Type 0 where
  pub gates : (i : ℕ) → Slot symbols.entry i (get_elem? before.idt i) (get_elem? after.idt i)
  pub low : UserDesc
  pub high : UserDesc
  pub task :
      (get_elem? after.gdt 7 ≡ some low)
      × (get_elem? after.gdt 8 ≡ some high)
      × (user_desc_base low high ≡ symbols.tss)
  pub size : length after.l1_identmap ≡ length before.l1_identmap
  pub pages :
      (i : ℕ)
      → get_elem? after.l1_identmap i ≡ (
          if in_user_section symbols i
          then Option.map user_page (get_elem? before.l1_identmap i)
          else get_elem? before.l1_identmap i)

-- The tables are large enough, and addresses have 64 bits.
pub record IsSized (symbols : Symbols) (tables : Tables) : Type 0 where
  pub idt : length tables.idt ≡ 256
  pub entry : (i : ℕ) → has_gate i ≡ true → symbols.entry i < 2 ^ 64
  pub gdt : 8 < length tables.gdt
  pub tss : symbols.tss < 2 ^ 64
  pub text :
      (gfn_of symbols.start_user_text ≤ length tables.l1_identmap)
      × (gfn_of symbols.end_user_text ≤ length tables.l1_identmap)
  pub rw_data :
      (gfn_of symbols.start_user_data ≤ length tables.l1_identmap)
      × (gfn_of symbols.end_user_data ≤ length tables.l1_identmap)
  pub bss :
      (gfn_of symbols.start_user_bss ≤ length tables.l1_identmap)
      × (gfn_of symbols.end_user_bss ≤ length tables.l1_identmap)

put_tss-stored :
    (tss : ℕ) (gdt : List UserDesc)
    → 8 < length gdt
    → Returns
        (λ (after : List UserDesc).
          (get_elem? after 7 ≡ some (pack_tss_desc tss).0)
          × (get_elem? after 8 ≡ some (pack_tss_desc tss).1))
        (put_tss tss gdt)
put_tss-stored tss gdt h =
    let e : ltb 8 (length gdt) ≡ true = ground (arith, h) in
    let d0 = (pack_tss_desc tss).0 in
    let d1 = (pack_tss_desc tss).1 in
    let n = length-set gdt 7 d0 in
    rw e (
      returned (
        get_elem?-set (set gdt 7 d0) 8 7 d1 (omega (arith, n, h))
            ∙ get_elem?-set gdt 7 7 d0 (omega (arith, h)),
        get_elem?-set (set gdt 7 d0) 8 8 d1 (omega (arith, n, h)),
      ))

slot :
    (entry : ℕ → ℕ) (i : ℕ) (before : Option Gate64)
    → (has_gate i ≡ true → entry i < 2 ^ 64)
    → Slot entry i before (expected entry i before)
unfolding pack_intr_gate
slot entry i before h = elim (Bool-cases (has_gate i)) [
  | inl gate ↦ rw gate (
      interrupt_gate _ gate (
        pack_x86_gate64_lem 14 8 (entry i) (if i == 3 || (i == 4 || i == 32) then 3 else 0)
          (if i == 8 then 1 else 0) (omega arith) (omega arith) (h gate) (ground arith)
          (ground arith)))
  | inr no_gate ↦ rw no_gate (unchanged no_gate)
]

-- three remappings of the user sections
all_pages :
    (s : Symbols) (before text rw_data after : List ℕ) (i : ℕ)
    → Remapped before (gfn_of s.start_user_text) (gfn_of s.end_user_text) text
    → Remapped text (gfn_of s.start_user_data) (gfn_of s.end_user_data) rw_data
    → Remapped rw_data (gfn_of s.start_user_bss) (gfn_of s.end_user_bss) after
    → get_elem? after i ≡ (
        if in_user_section s i
        then Option.map user_page (get_elem? before i)
        else get_elem? before i)
all_pages s before text rw_data after i a b c =
    c.pages i
    ∙ rw (b.pages i, a.pages i)
        (remapped_thrice (is_in s.start_user_text s.end_user_text i)
          (is_in s.start_user_data s.end_user_data i) (is_in s.start_user_bss s.end_user_bss i)
          (get_elem? before i))

-- If the tables are large enough, and the entry points have addresses of 64 bits, arch_init_traps() of an HVM
-- guest makes no access outside of the tables. Each vector that has_gate() names has then a present interrupt
-- gate, as the processor's manual reads its two words, with the kernel's code segment, its entry
-- point, a privilege level of 3 where user mode may use it and else 0, and stack 1 for the double fault;
-- the other slots are unchanged. The descriptor of the task register has the address of the TSS. Of
-- the page table, the entries of the three user sections have the bit for user accesses, their
-- other bits unchanged, and the other entries are as they were.
pub arch_init_traps-Initialised :
    (symbols : Symbols) (tables : Tables)
    → IsSized symbols tables
    → Returns (Initialised symbols tables) (arch_init_traps symbols tables)
unfolding arch_init_traps
arch_init_traps-Initialised symbols tables v =
    Returns-bind (pack_all-Packed symbols.entry vectors tables.idt (rw v.idt (omega arith)))
      (λ idt p. Returns-bind (put_tss-stored symbols.tss tables.gdt v.gdt) (λ gdt t.
        Returns-bind
          (remap_user-Remapped (gfn_of symbols.start_user_text) (gfn_of symbols.end_user_text)
            tables.l1_identmap v.text.0 v.text.1)
          (λ l1 a.
            Returns-bind
              (remap_user-Remapped (gfn_of symbols.start_user_data) (gfn_of symbols.end_user_data)
                l1 (rw a.size v.rw_data.0) (rw a.size v.rw_data.1))
              (λ l2 b.
                Returns-bind
                  (remap_user-Remapped (gfn_of symbols.start_user_bss) (gfn_of symbols.end_user_bss)
                    l2 (rw (b.size, a.size) v.bss.0) (rw (b.size, a.size) v.bss.1))
                  (λ l3 c. returned (record {
                    gates = λ i.
                        rw (p.slots i ∙ packed_gates symbols.entry i (get_elem? tables.idt i))
                          (slot symbols.entry i (get_elem? tables.idt i) (v.entry i));
                    low = (pack_tss_desc symbols.tss).0;
                    high = (pack_tss_desc symbols.tss).1;
                    task = (t.0, t.1, (pack_ldt_desc_lem symbols.tss 0 v.tss (omega arith)).2);
                    size = c.size ∙ b.size ∙ a.size;
                    pages = λ i. all_pages symbols tables.l1_identmap l1 l2 l3 i a b c;
                  }))))))
