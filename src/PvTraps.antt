-- ===== src/PvTraps.antt =====
-- arch/x86/pv/traps.c for x86_64: what is registered with Xen, and the remapping of pages.
pub mod Tables
use xtf.Base.{
  ℕ, zero, suc, ◌+◌, ◌-◌, ◌*◌, ◌/◌, ◌%◌, ◌^◌, ◌==◌, ltb, Bool, true, false, if◌then◌else◌, List, [],
  ◌∷◌, ◌++◌, map, Option, some, none,
}
use xtf.Base.Int.{ℤ, pos, negsuc}
use xtf.Base.Run.{Run, ok, out_of_fuel}
use xtf.Paging.{pte_from_virt, virt_to_mfn}
use xtf.HvmTraps.{XtfIdte}

-- `struct xen_trap_info`
pub record TrapInfo : Type 0 where
  pub vector : ℕ
  pub flags : ℕ
  pub cs : ℕ
  pub address : ℕ

-- the members of `xen_callback_register_t` that are set
pub record Callback : Type 0 where
  pub type : ℕ
  pub flags : ℕ
  pub cs : ℕ
  pub address : ℕ

-- the hypercalls, and the loads of the data segment registers
pub record Xen (W : Type 0) : Type 0 where
  pub set_trap_table : List TrapInfo → W → ℤ × W
  pub register_callback : Callback → W → ℤ × W
  pub update_va_mapping : (linear npte flags : ℕ) → W → ℤ × W
  pub set_gdt : (frames : List ℕ) (entries : ℕ) → W → ℤ × W
  pub stack_switch : (ss sp : ℕ) → W → ℤ × W
  pub new_user_baseptr : (mfn : ℕ) → W → ℤ × W
  pub write_segments : (sel : ℕ) → W → W
  pub read_cr3 : W → ℕ

-- `__KERN_CS` and `__KERN_DS`, and `__USER_DS`
abbrev pub pv_kern_cs : ℕ
pv_kern_cs = 0xe030

abbrev pub pv_kern_ds : ℕ
pv_kern_ds = 0xe028

abbrev pub pv_user_ds : ℕ
pv_user_ds = 0xe02b

-- the last entry of a table
abbrev pub sentinel : TrapInfo
sentinel = record { vector = 0; flags = 0; cs = 0; address = 0 }

-- an entry with the flags `ring | 4`
abbrev pub trap : (entry : ℕ → ℕ) → (ring vector : ℕ) → TrapInfo
trap entry ring vector = record {
  vector = vector;
  flags = ring + 4;
  cs = pv_kern_cs;
  address = entry vector;
}

-- by the addresses of the entry points, as they belong to the vectors
abbrev pub pv_default_trap_info : (entry : ℕ → ℕ) → List TrapInfo
pv_default_trap_info entry =
    trap entry 0 0
    ∷ trap entry 0 1
    ∷ trap entry 0 2
    ∷ trap entry 3 3
    ∷ trap entry 3 4
    ∷ trap entry 0 5
    ∷ trap entry 0 6
    ∷ trap entry 0 7
    ∷ trap entry 0 8
    ∷ trap entry 0 10
    ∷ trap entry 0 11
    ∷ trap entry 0 12
    ∷ trap entry 0 13
    ∷ trap entry 0 14
    ∷ trap entry 0 16
    ∷ trap entry 0 17
    ∷ trap entry 0 18
    ∷ trap entry 0 19
    ∷ trap entry 0 20
    ∷ trap entry 3 0x20
    ∷ sentinel
    ∷ []

-- `if ( rc ) panic(...)`; `none` is the panic.
abbrev pub expect_zero : {W : Type 0} → ℤ × W → Option W
expect_zero (pos zero, w) = some w
expect_zero (pos (suc n), w) = none
expect_zero (negsuc n, w) = none

abbrev pub ◌>>=◌ : {X Y : Type 0} → Option X → (X → Option Y) → Option Y
none >>= next = none
some x >>= next = next x

infixl 5 ◌>>=◌
-- the addresses that the linker gives
pub record PvSymbols : Type 0 where
  pub entry : ℕ → ℕ
  pub entry_evtchn : ℕ
  pub entry_syscall : ℕ
  pub entry_sysenter : ℕ
  pub gdt : ℕ
  pub boot_stack : ℕ

-- `cb`: an event, a system call, one from 32 bits, and a SYSENTER, where bit 0 of the flags masks events
abbrev pub callbacks : PvSymbols → List Callback
callbacks symbols =
    record { type = 0; flags = 0; cs = pv_kern_cs; address = symbols.entry_evtchn }
    ∷ record { type = 2; flags = 1; cs = pv_kern_cs; address = symbols.entry_syscall }
    ∷ record { type = 7; flags = 1; cs = pv_kern_cs; address = symbols.entry_syscall }
    ∷ record { type = 5; flags = 1; cs = pv_kern_cs; address = symbols.entry_sysenter }
    ∷ []

module _ {W : Type 0} (xen : Xen W) (m2p p2m : ℕ → ℕ) where
  unfoldable pub pv_set_idte : (vector : ℕ) → XtfIdte → W → ℤ × W
  pv_set_idte vector idte w =
      xen.set_trap_table
        (record {
          vector = vector % 2 ^ 8;
          flags = (idte.dpl / 8 * 8 + idte.dpl % 4 + 4) % 2 ^ 8;
          cs = idte.cs % 2 ^ 16;
          address = idte.addr;
        }
          ∷ sentinel
          ∷ [])
        w

  unfoldable pub remap_linear : (linear flags : ℕ) → W → ℤ × W
  remap_linear linear flags w =
      xen.update_va_mapping linear (pte_from_virt m2p p2m linear flags) 2 w

  -- the loop, once `ret` is what the last call returned
  unfoldable pub remap_linear_loop : (rounds start last flags : ℕ) → ℤ × W → Run (ℤ × W)
  remap_linear_loop zero start last flags (ret, w) = out_of_fuel
  remap_linear_loop (suc rounds) start last flags (negsuc n, w) = ok (negsuc n, w)
  remap_linear_loop (suc rounds) start last flags (pos (suc n), w) = ok (pos (suc n), w)
  remap_linear_loop (suc rounds) start last flags (pos zero, w) =
      let rest =
        remap_linear_loop rounds (start + 2 ^ 12) last flags (remap_linear start flags w) in
      if ltb start last then rest else ok (pos zero, w)

  unfoldable pub remap_linear_range : (start last flags : ℕ) → W → Run (ℤ × W)
  remap_linear_range start last flags w =
      remap_linear_loop ((last - start + 4095) / 2 ^ 12 + 1) start last flags (pos zero, w)

  unfoldable pub register_all : List Callback → W → Option W
  register_all [] w = some w
  register_all (cb ∷ cbs) w = expect_zero (xen.register_callback cb w) >>= register_all cbs

  unfoldable pub init_callbacks : PvSymbols → W → Option W
  init_callbacks symbols w =
      expect_zero (xen.set_trap_table (pv_default_trap_info symbols.entry) w)
      >>= register_all (callbacks symbols)

  -- the loads of the data segments, and the user page tables, which are the kernel's
  unfoldable pub set_user_tables : W → Option W
  set_user_tables w =
      let w = xen.write_segments pv_user_ds w in
      expect_zero (xen.new_user_baseptr (xen.read_cr3 w / 2 ^ 12) w)

  -- PF_SYM(AD, P) is 0x61.
  unfoldable pub pv_init_traps : PvSymbols → W → Option W
  pv_init_traps symbols w = do
    w ← init_callbacks symbols w
    w ← expect_zero (remap_linear symbols.gdt 0x61 w)
    w ← expect_zero (xen.set_gdt (virt_to_mfn m2p p2m symbols.gdt ∷ []) 15 w)
    w ← expect_zero (xen.stack_switch pv_kern_ds (symbols.boot_stack + 2 * 2 ^ 12) w)
    w ← set_user_tables w
    expect_zero (xen.update_va_mapping 0 0 2 w)
