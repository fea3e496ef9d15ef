-- ===== src/Desc.antt =====
-- arch/x86/include/arch/x86-gate.h and desc.h, and the table of arch/x86/desc.c: gates and segment
-- descriptors, with the views that their unions give. An OR of bits that are disjoint is a sum.
pub mod Gates
pub mod Segments
use xtf.Base.{ℕ, ◌+◌, ◌-◌, ◌*◌, ◌/◌, ◌%◌, ◌^◌, ◌==◌, if◌then◌else◌, List, [], ◌∷◌, ◌++◌, replicate}

-- `struct x86_gate32`, a field each
pub record Gate32 : Type 0 where
  pub offset0 : ℕ
  pub selector : ℕ
  pub param_count : ℕ
  pub _r0 : ℕ
  pub type : ℕ
  pub s : ℕ
  pub dpl : ℕ
  pub p : ℕ
  pub offset1 : ℕ

-- the members `lo` and `hi` of the same union
abbrev pub gate32_lo : Gate32 → ℕ
gate32_lo g = g.offset0 + g.selector * 2 ^ 16

abbrev pub gate32_hi : Gate32 → ℕ
gate32_hi g =
    g.param_count
    + g._r0 * 2 ^ 5
    + g.type * 2 ^ 8
    + g.s * 2 ^ 12
    + g.dpl * 2 ^ 13
    + g.p * 2 ^ 15
    + g.offset1 * 2 ^ 16

unfoldable pub pack_x86_gate32 : (type sel offset dpl count : ℕ) → Gate32
pack_x86_gate32 type sel offset dpl count = record {
  offset0 = offset % 2 ^ 16;
  selector = sel % 2 ^ 16;
  param_count = count % 2 ^ 5;
  _r0 = 0;
  type = type % 2 ^ 4;
  s = 0;
  dpl = dpl % 2 ^ 2;
  p = 1;
  offset1 = offset / 2 ^ 16 % 2 ^ 16;
}

-- `struct x86_gate64`
pub record Gate64 : Type 0 where
  pub offset0 : ℕ
  pub selector : ℕ
  pub ist : ℕ
  pub _r0 : ℕ
  pub type : ℕ
  pub s : ℕ
  pub dpl : ℕ
  pub p : ℕ
  pub offset1 : ℕ
  pub offset2 : ℕ
  pub _r1 : ℕ

abbrev pub gate64_lo : Gate64 → ℕ
gate64_lo g =
    g.offset0
    + g.selector * 2 ^ 16
    + g.ist * 2 ^ 32
    + g._r0 * 2 ^ 35
    + g.type * 2 ^ 40
    + g.s * 2 ^ 44
    + g.dpl * 2 ^ 45
    + g.p * 2 ^ 47
    + g.offset1 * 2 ^ 48

abbrev pub gate64_hi : Gate64 → ℕ
gate64_hi g = g.offset2 + g._r1 * 2 ^ 32

unfoldable pub pack_x86_gate64 : (type sel offset dpl ist : ℕ) → Gate64
pack_x86_gate64 type sel offset dpl ist = record {
  offset0 = offset % 2 ^ 16;
  selector = sel % 2 ^ 16;
  ist = ist % 2 ^ 3;
  _r0 = 0;
  type = type % 2 ^ 4;
  s = 0;
  dpl = dpl % 2 ^ 2;
  p = 1;
  offset1 = offset / 2 ^ 16 % 2 ^ 16;
  offset2 = offset / 2 ^ 32 % 2 ^ 32;
  _r1 = 0;
}

abbrev pub pack_gate : (type sel offset dpl other : ℕ) → Gate64
pack_gate type sel offset dpl other = pack_x86_gate64 type sel offset dpl other

unfoldable pub pack_task_gate : (selector : ℕ) → Gate64
pack_task_gate selector = pack_gate 5 selector 0 0 0

unfoldable pub pack_call_gate : (sel offset dpl other : ℕ) → Gate64
pack_call_gate sel offset dpl other = pack_gate 12 sel offset dpl other

unfoldable pub pack_intr_gate : (sel offset dpl other : ℕ) → Gate64
pack_intr_gate sel offset dpl other = pack_gate 14 sel offset dpl other

unfoldable pub pack_trap_gate : (sel offset dpl other : ℕ) → Gate64
pack_trap_gate sel offset dpl other = pack_gate 15 sel offset dpl other

-- `struct seg_desc32`, by its members `lo` and `hi`
pub record UserDesc : Type 0 where
  pub lo : ℕ
  pub hi : ℕ

-- the other members of the union, by their bits
abbrev pub limit0 : UserDesc → ℕ
limit0 d = d.lo % 2 ^ 16

abbrev pub base0 : UserDesc → ℕ
base0 d = d.lo / 2 ^ 16

abbrev pub base1 : UserDesc → ℕ
base1 d = d.hi % 2 ^ 8

abbrev pub desc_type : UserDesc → ℕ
desc_type d = d.hi / 2 ^ 8 % 2 ^ 4

abbrev pub desc_s : UserDesc → ℕ
desc_s d = d.hi / 2 ^ 12 % 2

abbrev pub desc_dpl : UserDesc → ℕ
desc_dpl d = d.hi / 2 ^ 13 % 2 ^ 2

abbrev pub desc_p : UserDesc → ℕ
desc_p d = d.hi / 2 ^ 15 % 2

abbrev pub limit1 : UserDesc → ℕ
limit1 d = d.hi / 2 ^ 16 % 2 ^ 4

abbrev pub desc_l : UserDesc → ℕ
desc_l d = d.hi / 2 ^ 21 % 2

abbrev pub desc_d : UserDesc → ℕ
desc_d d = d.hi / 2 ^ 22 % 2

abbrev pub desc_g : UserDesc → ℕ
desc_g d = d.hi / 2 ^ 23 % 2

abbrev pub base2 : UserDesc → ℕ
base2 d = d.hi / 2 ^ 24

abbrev pub init_gdte : (base limit attr : ℕ) → UserDesc
init_gdte base limit attr = record {
  lo = base % 2 ^ 16 * 2 ^ 16 + limit % 2 ^ 16;
  hi =
      base / 2 ^ 24 % 2 ^ 8 * 2 ^ 24
      + limit / 2 ^ 16 % 2 ^ 4 * 2 ^ 16
      + (attr % 2 ^ 8 + attr / 2 ^ 12 % 2 ^ 4 * 2 ^ 12) * 2 ^ 8
      + base / 2 ^ 16 % 2 ^ 8;
}

-- `d[1]` is `next`.
unfoldable pub user_desc_base : (d next : UserDesc) → ℕ
user_desc_base d next =
    let base = base0 d + base1 d * 2 ^ 16 + base2 d * 2 ^ 24 in
    if desc_s d == 0 then base + next.lo * 2 ^ 32 else base

unfoldable pub user_desc_limit : UserDesc → ℕ
user_desc_limit d =
    let limit = limit0 d + limit1 d * 2 ^ 16 in
    if desc_g d == 0 then limit else limit * 2 ^ 12 % 2 ^ 32 + 4095

-- `(user_desc){{{ .lo = base >> 32, .hi = 0 }}}`
abbrev pub upper_base : ℕ → UserDesc
upper_base base = record { lo = base / 2 ^ 32 % 2 ^ 32; hi = 0 }

-- sizeof(struct x86_tss64)
abbrev pub sizeof_env_tss : ℕ
sizeof_env_tss = 104

-- `d[0]` and `d[1]`, for the address `t`
unfoldable pub pack_tss_desc : (t : ℕ) → UserDesc × UserDesc
pack_tss_desc t = (init_gdte t (sizeof_env_tss - 1) 137, upper_base t)

unfoldable pub pack_ldt_desc : (ldt limit : ℕ) → UserDesc × UserDesc
pack_ldt_desc ldt limit = (init_gdte ldt limit 130, upper_base ldt)

-- SEG_ATTR_COMMON, SEG_ATTR_CODE, SEG_ATTR_DPL3, SEG_ATTR_R, SEG_ATTR_L, SEG_ATTR_D, SEG_ATTR_B and
-- SEG_ATTR_W
abbrev pub attr_common : ℕ
attr_common = 32913

abbrev pub attr_code : ℕ
attr_code = 8

abbrev pub attr_dpl3 : ℕ
attr_dpl3 = 96

abbrev pub attr_r : ℕ
attr_r = 2

abbrev pub attr_l : ℕ
attr_l = 8192

abbrev pub attr_d : ℕ
attr_d = 16384

abbrev pub attr_b : ℕ
attr_b = 16384

abbrev pub attr_w : ℕ
attr_w = 2

-- the table of an HVM guest
abbrev pub gdt : List UserDesc
gdt =
    record { lo = 0; hi = 0 }
    ∷ init_gdte 0 1048575 (attr_common + attr_code + attr_r + attr_l)
    ∷ init_gdte 0 1048575 (attr_common + attr_code + attr_r + attr_d)
    ∷ init_gdte 0 1048575 (attr_common + attr_b + attr_w)
    ∷ init_gdte 0 1048575 (attr_common + attr_code + attr_dpl3 + attr_r + attr_l)
    ∷ init_gdte 0 1048575 (attr_common + attr_code + attr_dpl3 + attr_r + attr_d)
    ∷ init_gdte 0 1048575 (attr_common + attr_dpl3 + attr_b + attr_w)
    ∷ replicate 8 (record { lo = 0; hi = 0 })
