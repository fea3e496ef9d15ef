-- ===== src/Setup/Features.antt =====
-- What collect_cpuid() depends on, and what it sets.
use xtf.Base.{
  ℕ, ◌/◌, ◌^◌, ◌<◌, ◌≡◌, refl, ap, ap₂, ◌∙◌, ◌==◌, leb, ◌&&◌, Bool, true, false, if◌then◌else◌,
  List, set, arith, Bool-cases, inl, inr,
}
use xtf.Setup.{
  CpuidLeaf, Cpu, X86Vendor, family_of, model_of, collect_leaf_1, collect_leaf_7, collect_leaf_d,
  collect_extended, set_widths, collect_cpuid, vendor_of,
}

family_of-bound : (eax : ℕ) → family_of eax < 271
family_of-bound eax = ground arith

model_of-bound : (vendor : X86Vendor) (eax : ℕ) → model_of vendor eax < 256
model_of-bound vendor eax = ground arith

-- collect_cpuid() sets widths of addresses that are at least 1 and at most 255.
pub collect_cpuid-widths :
    (cpuid_fn : (leaf subleaf : ℕ) → CpuidLeaf) (cpu : Cpu)
    → (0 < (collect_cpuid cpuid_fn cpu).maxphysaddr)
      × ((collect_cpuid cpuid_fn cpu).maxphysaddr < 256)
      × (0 < (collect_cpuid cpuid_fn cpu).maxvirtaddr)
      × ((collect_cpuid cpuid_fn cpu).maxvirtaddr < 256)
unfolding collect_cpuid set_widths
collect_cpuid-widths cpuid_fn cpu = (ground arith, ground arith, ground arith, ground arith)

-- The two functions agree on a leaf if it is there.
abbrev pub AgreeOn : (f g : (leaf subleaf : ℕ) → CpuidLeaf) → (there : Bool) → (leaf : ℕ) → Type 0
AgreeOn f g there leaf = there ≡ true → f leaf 0 ≡ g leaf 0

abbrev pub is_extended : (leaf max_extd_leaf : ℕ) → Bool
is_extended leaf max_extd_leaf = max_extd_leaf / 2 ^ 16 == 0x8000 && leb leaf max_extd_leaf

-- A leaf that is used if it is there.
used_if :
    {A : Type 0} (t : Bool) (use_of : CpuidLeaf → A) (x y : CpuidLeaf) (other : A)
    → (t ≡ true → x ≡ y)
    → (if t then use_of x else other) ≡ (if t then use_of y else other)
used_if true use_of x y other h = ap use_of (h refl)
used_if false use_of x y other h = refl

module _ (f g : (leaf subleaf : ℕ) → CpuidLeaf) where
  leaf_1-agrees :
      (cpu : Cpu) → AgreeOn f g (leb 1 cpu.max_leaf) 1 → collect_leaf_1 f cpu ≡ collect_leaf_1 g cpu
  unfolding collect_leaf_1
  leaf_1-agrees cpu h = elim (Bool-cases (leb 1 cpu.max_leaf)) [
    | inl e ↦ rw (e, h e) refl
    | inr e ↦ rw e refl
  ]

  leaf_7-agrees :
      (cpu : Cpu) → AgreeOn f g (leb 7 cpu.max_leaf) 7 → collect_leaf_7 f cpu ≡ collect_leaf_7 g cpu
  unfolding collect_leaf_7
  leaf_7-agrees cpu h = elim (Bool-cases (leb 7 cpu.max_leaf)) [
    | inl e ↦ rw (e, h e) refl
    | inr e ↦ rw e refl
  ]

  leaf_d-agrees :
      (cpu : Cpu)
      → AgreeOn f g (leb 13 cpu.max_leaf) 13
      → collect_leaf_d f cpu ≡ collect_leaf_d g cpu
  unfolding collect_leaf_d
  leaf_d-agrees cpu h = elim (Bool-cases (leb 13 cpu.max_leaf)) [
    | inl e ↦ rw (e, h e) refl
    | inr e ↦ rw e refl
  ]

  max_leaf-keeps :
      (cpu : Cpu)
      → ((collect_leaf_1 g cpu).max_leaf ≡ cpu.max_leaf)
        × ((collect_leaf_7 g cpu).max_leaf ≡ cpu.max_leaf)
  unfolding collect_leaf_1 collect_leaf_7
  max_leaf-keeps cpu = (
    elim (Bool-cases (leb 1 cpu.max_leaf)) [ inl e ↦ rw e refl | inr e ↦ rw e refl ],
    elim (Bool-cases (leb 7 cpu.max_leaf)) [ inl e ↦ rw e refl | inr e ↦ rw e refl ],
  )

  extended-agrees :
      (cpu : Cpu)
      → AgreeOn f g (is_extended 0x80000001 cpu.max_extd_leaf) 0x80000001
      → AgreeOn f g (is_extended 0x80000007 cpu.max_extd_leaf) 0x80000007
      → AgreeOn f g (is_extended 0x80000008 cpu.max_extd_leaf) 0x80000008
      → collect_extended f cpu ≡ collect_extended g cpu
  unfolding collect_extended
  extended-agrees cpu h1 h7 h8 =
      let t1 = is_extended 0x80000001 cpu.max_extd_leaf in
      let t7 = is_extended 0x80000007 cpu.max_extd_leaf in
      let t8 = is_extended 0x80000008 cpu.max_extd_leaf in
      let f1 = λ (l : CpuidLeaf).
        if t1 then set (set cpu.x86_features 3 l.c) 2 l.d else cpu.x86_features in
      let f7 = λ (l : CpuidLeaf) (fs : List ℕ). if t7 then set fs 7 l.d else fs in
      let f8 = λ (l : CpuidLeaf) (fs : List ℕ). if t8 then set fs 8 l.b else fs in
      let a : f1 (f 0x80000001 0) ≡ f1 (g 0x80000001 0) =
        used_if t1 (λ l. set (set cpu.x86_features 3 l.c) 2 l.d) _ _ _ h1 in
      let b : f7 (f 0x80000007 0) (f1 (f 0x80000001 0))
          ≡ f7 (g 0x80000007 0) (f1 (g 0x80000001 0)) =
        used_if t7 (λ l. set (f1 (f 0x80000001 0)) 7 l.d) _ _ _ h7 ∙ ap (f7 (g 0x80000007 0)) a in
      let c : f8 (f 0x80000008 0) (f7 (f 0x80000007 0) (f1 (f 0x80000001 0)))
          ≡ f8 (g 0x80000008 0) (f7 (g 0x80000007 0) (f1 (g 0x80000001 0))) =
        used_if t8 (λ l. set (f7 (f 0x80000007 0) (f1 (f 0x80000001 0))) 8 l.b) _ _ _ h8
        ∙ ap (f8 (g 0x80000008 0)) b in
      let d : (if t8 then (f 0x80000008 0).a else 0) ≡ (if t8 then (g 0x80000008 0).a else 0) =
        used_if t8 (λ l. l.a) _ _ 0 h8 in
      ap₂ (λ (addr : ℕ) (fs : List ℕ). (addr, record cpu { x86_features = fs })) d c

-- collect_cpuid() depends on its two maximum leaves, on the leaves 1, 7 and 0xd and the extended ones
-- 0x80000001, 0x80000007 and 0x80000008 as far as they are there, and on subleaf 0 of each only.
pub collect_cpuid-agrees :
    (f g : (leaf subleaf : ℕ) → CpuidLeaf) (cpu : Cpu)
    → f 0 0 ≡ g 0 0
    → f 0x80000000 0 ≡ g 0x80000000 0
    → AgreeOn f g (leb 1 (g 0 0).a) 1
    → AgreeOn f g (leb 7 (g 0 0).a) 7
    → AgreeOn f g (leb 13 (g 0 0).a) 13
    → AgreeOn f g (is_extended 0x80000001 (g 0x80000000 0).a) 0x80000001
    → AgreeOn f g (is_extended 0x80000007 (g 0x80000000 0).a) 0x80000007
    → AgreeOn f g (is_extended 0x80000008 (g 0x80000000 0).a) 0x80000008
    → collect_cpuid f cpu ≡ collect_cpuid g cpu
unfolding collect_cpuid
collect_cpuid-agrees f g cpu basic extended h1 h7 hd e1 e7 e8 =
    let c0 : Cpu = record cpu { max_leaf = (g 0 0).a; x86_vendor = vendor_of (g 0 0) } in
    let c1 = collect_leaf_1 g c0 in
    let c7 = collect_leaf_7 g c1 in
    let n1 : c1.max_leaf ≡ (g 0 0).a = (max_leaf-keeps g g c0).0 in
    let n7 : c7.max_leaf ≡ (g 0 0).a = (max_leaf-keeps g g c1).1 ∙ n1 in
    let p1 : collect_leaf_1 f c0 ≡ c1 = leaf_1-agrees f g c0 h1 in
    let p7 : collect_leaf_7 f c1 ≡ c7 = leaf_7-agrees f g c1 (rw n1 h7) in
    let pd : collect_leaf_d f c7 ≡ collect_leaf_d g c7 = leaf_d-agrees f g c7 (rw n7 hd) in
    rw
      (
        basic,
        extended,
        p1,
        p7,
        pd,
        extended-agrees f g (record (collect_leaf_d g c7) { max_extd_leaf = (g 0x80000000 0).a }) e1
            e7 e8,
      )
      refl
