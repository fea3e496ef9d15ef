-- ===== src/Setup.antt =====
-- What arch/x86/setup.c learns by CPUID: the processor, and Xen's leaves with their hypercall page and domain ID.
pub mod Leaves
pub mod Features
pub mod Rings
pub mod Boot
use xtf.Base.{
  ℕ, zero, suc, ◌+◌, ◌-◌, ◌*◌, ◌/◌, ◌%◌, ◌^◌, ◌==◌, leb, ltb, not, ◌&&◌, ◌||◌, Bool, true, false,
  if◌then◌else◌, List, set, Option, some, none,
}
use xtf.Base.Int.{ℤ, pos, negsuc}

-- what the instruction CPUID gives
pub record CpuidLeaf : Type 0 where
  pub a : ℕ
  pub b : ℕ
  pub c : ℕ
  pub d : ℕ

pub data X86Vendor : Type 0 where
  vendor_unknown vendor_intel vendor_amd : X86Vendor

abbrev pub is_intel : X86Vendor → Bool
is_intel vendor_unknown = false
is_intel vendor_intel = true
is_intel vendor_amd = false

-- the global variables that collect_cpuid() sets
pub record Cpu : Type 0 where
  pub x86_features : List ℕ
  pub x86_vendor : X86Vendor
  pub max_leaf : ℕ
  pub max_extd_leaf : ℕ
  pub x86_family : ℕ
  pub x86_model : ℕ
  pub x86_stepping : ℕ
  pub maxphysaddr : ℕ
  pub maxvirtaddr : ℕ

unfoldable pub vendor_of : CpuidLeaf → X86Vendor
vendor_of leaf =
    if leaf.b == 0x756e6547 && (leaf.c == 0x6c65746e && leaf.d == 0x49656e69)
    then vendor_intel
    else if leaf.b == 0x68747541 && (leaf.c == 0x444d4163 && leaf.d == 0x69746e65)
    then vendor_amd
    else vendor_unknown

-- The family and the model of an `eax`. The bits of an OR are disjoint.
abbrev pub family_of : ℕ → ℕ
family_of eax =
    let family = eax / 2 ^ 8 % 2 ^ 4 in
    if family == 15 then family + eax / 2 ^ 20 % 2 ^ 8 else family

abbrev pub model_of : X86Vendor → ℕ → ℕ
model_of vendor eax =
    let family = eax / 2 ^ 8 % 2 ^ 4 in
    let model = eax / 2 ^ 4 % 2 ^ 4 in
    if family == 15 || (is_intel vendor && family == 6)
    then model + eax / 2 ^ 16 % 2 ^ 4 * 2 ^ 4
    else model

-- `(addr & 0xff) ?: 36`, and the same of the other byte
unfoldable pub set_widths : ℕ × Cpu → Cpu
set_widths (addr, cpu) = record cpu {
  maxphysaddr = if addr % 2 ^ 8 == 0 then 36 else addr % 2 ^ 8;
  maxvirtaddr = if addr / 2 ^ 8 % 2 ^ 8 == 0 then 32 else addr / 2 ^ 8 % 2 ^ 8;
}

-- the test of a candidate by its leaf
abbrev pub is_xen : ℕ → CpuidLeaf → Bool
is_xen l leaf =
    leaf.b == 0x566e6558
    && (leaf.c == 0x65584d4d && (leaf.d == 0x4d4d566e && leb 2 ((leaf.a + 2 ^ 32 - l) % 2 ^ 32)))

-- what arch_get_domid() returns of an `ecx`, an int
abbrev pub to_int : ℕ → ℤ
to_int v = if ltb v (2 ^ 31) then pos v else negsuc (2 ^ 32 - v - 1)

abbrev pub check_page : {W : Type 0} → (W → ℕ) → Option W → Option W
check_page first_byte none = none
check_page first_byte (some w) = if first_byte w == 0xc3 then none else some w

module _ (cpuid_fn : (leaf subleaf : ℕ) → CpuidLeaf) where
  -- `if ( max_leaf >= 1 )`
  unfoldable pub collect_leaf_1 : Cpu → Cpu
  collect_leaf_1 cpu =
      let leaf = cpuid_fn 1 0 in
      if leb 1 cpu.max_leaf
      then record cpu {
        x86_features = set (set cpu.x86_features 1 leaf.c) 0 leaf.d;
        x86_stepping = leaf.a % 2 ^ 4;
        x86_model = model_of cpu.x86_vendor leaf.a;
        x86_family = family_of leaf.a;
      }
      else cpu

  -- the leaves 7 and 0xd
  unfoldable pub collect_leaf_7 : Cpu → Cpu
  collect_leaf_7 cpu =
      let leaf = cpuid_fn 7 0 in
      if leb 7 cpu.max_leaf
      then record cpu { x86_features = set (set (set cpu.x86_features 5 leaf.b) 6 leaf.c) 9 leaf.d }
      else cpu

  unfoldable pub collect_leaf_d : Cpu → Cpu
  collect_leaf_d cpu =
      let leaf = cpuid_fn 13 0 in
      if leb 13 cpu.max_leaf
      then record cpu { x86_features = set cpu.x86_features 4 leaf.a }
      else cpu

  -- the leaves 0x80000001, 0x80000007 and 0x80000008 if there are extended ones, and `addr`
  unfoldable pub collect_extended : Cpu → ℕ × Cpu
  collect_extended cpu =
      let e1 = cpuid_fn 0x80000001 0 in
      let e7 = cpuid_fn 0x80000007 0 in
      let e8 = cpuid_fn 0x80000008 0 in
      let there = cpu.max_extd_leaf / 2 ^ 16 == 0x8000 in
      let f1 : List ℕ =
        if there && leb 0x80000001 cpu.max_extd_leaf
        then set (set cpu.x86_features 3 e1.c) 2 e1.d
        else cpu.x86_features in
      let f7 : List ℕ = if there && leb 0x80000007 cpu.max_extd_leaf then set f1 7 e7.d else f1 in
      let f8 : List ℕ = if there && leb 0x80000008 cpu.max_extd_leaf then set f7 8 e8.b else f7 in
      (
        if there && leb 0x80000008 cpu.max_extd_leaf then e8.a else 0,
        record cpu { x86_features = f8 },
      )

  unfoldable pub collect_cpuid : Cpu → Cpu
  collect_cpuid cpu =
      let basic = cpuid_fn 0 0 in
      let started = record cpu { max_leaf = basic.a; x86_vendor = vendor_of basic } in
      let standard = collect_leaf_d (collect_leaf_7 (collect_leaf_1 started)) in
      set_widths (collect_extended (record standard { max_extd_leaf = (cpuid_fn 0x80000000 0).a }))

  -- The loop with `n` candidates left. cpuid() leaves the subleaf open; it is 0 here.
  unfoldable pub search_leaves : (n l : ℕ) → Option ℕ
  search_leaves zero l = none
  search_leaves (suc n) l =
      let rest = search_leaves n (l + 0x100) in if is_xen l (cpuid_fn l 0) then some l else rest

  -- The result is also what is remembered in `leaves`; `none` is a panic.
  unfoldable pub find_xen_leaves : (leaves : ℕ) → Option ℕ
  find_xen_leaves leaves = if leaves == 0 then search_leaves 0x100 0x40000000 else some leaves

  abbrev pub domid_from : Option ℕ → Option ℤ
  domid_from none = none
  domid_from (some base) =
      let leaf = cpuid_fn (base + 4) 0 in
      some (if leaf.a / 2 ^ 4 % 2 == 1 then to_int leaf.c else negsuc 0)

  unfoldable pub arch_get_domid : (hvm : Bool) (leaves : ℕ) → Option ℤ
  arch_get_domid hvm leaves = if hvm then domid_from (find_xen_leaves leaves) else some (negsuc 0)

  -- the write to the MSR, and the first byte of the hypercall page
  abbrev pub write_page :
      {W : Type 0} → ((msr val : ℕ) → W → W) → (page : ℕ) → Option ℕ → W → Option W
  write_page wrmsr page none w = none
  write_page wrmsr page (some base) w = some (wrmsr (cpuid_fn (base + 2) 0).b page w)

  unfoldable pub init_hypercalls :
      {W : Type 0}
      → ((msr val : ℕ) → W → W)
      → (W → ℕ)
      → (page : ℕ) (hvm : Bool) (leaves : ℕ) → W
      → Option W
  init_hypercalls wrmsr first_byte page hvm leaves w =
      check_page first_byte
        (if hvm then write_page wrmsr page (find_xen_leaves leaves) w else some w)
