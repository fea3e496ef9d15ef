-- ===== src/Grant.antt =====
-- common/grant_table.c and arch/x86/grant_table.c. Functions that call Xen take its state and the
-- report, into which they print.
pub mod Mapped
use Prim.Native.String.{String}
use xtf.Base.{
  ℕ, zero, suc, ◌+◌, ◌-◌, ◌*◌, ◌^◌, ◌==◌, ◌&&◌, not, Bool, true, false, if◌then◌else◌, List, [],
  ◌∷◌, Option, some, none, get_or,
}
use xtf.Base.Int.{ℤ, pos, negsuc}
use xtf.Printf.Parse.{Arg, int}
use xtf.Report.{Report, printk, literal}

abbrev errstr : List String
errstr =
    "okay" ∷ "undefined error" ∷ "unrecognised domain id" ∷ "invalid grant reference"
    ∷ "invalid mapping handle" ∷ "invalid virtual address" ∷ "invalid device address"
    ∷ "no spare translation slot in the I/O MMU" ∷ "permission denied" ∷ "bad page"
    ∷ "copy arguments cross page boundary" ∷ "page address size too large"
    ∷ "operation not done; try again" ∷ []

-- `-err` of a positive `err` is a large unsigned number.
unfoldable pub gntst_strerror : ℤ → String
gntst_strerror (pos zero) = "okay"
gntst_strerror (pos (suc n)) = "unknown"
gntst_strerror (negsuc n) = get_or errstr (n + 1) "unknown"

-- the hypercalls: a return value, what is filled in, and the new state of Xen
pub record Xen (W : Type 0) : Type 0 where
  pub set_version : (version : ℕ) → W → ℤ × W
  pub setup_table : W → ((ℤ × ℤ) × (ℕ → ℕ)) × W
  pub update_va_mapping : (va pte : ℕ) → W → ℤ × W
  pub add_to_physmap : (idx gfn : ℕ) → W → ℤ × W

-- the two static variables of xtf_init_grant_table()
pub record Grants : Type 0 where
  pub set_version_unavailable : Bool
  pub gnttab_mapped : Bool

-- `if ( rc )`
abbrev pub fails : ℤ → Bool
fails (pos zero) = false
fails rc = true

-- `rc == -ENOSYS`
abbrev pub is_enosys : ℤ → Bool
is_enosys (negsuc n) = n == 37
is_enosys rc = false

-- an `int` as an argument
abbrev int_of : ℤ → Arg
int_of (pos n) = int n
int_of (negsuc n) = int (2 ^ 32 - (n + 1))

-- gnttab_raw[] is one page.
abbrev pub pages : ℕ
pages = 1

-- `xen` is what the calls do; CONFIG_PV, and where gnttab_raw[] is: its address and its frame.
module _ {W : Type 0} (xen : Xen W) (config_pv : Bool) (gnttab_raw gnttab_gfn : ℕ) where
  -- Either loop, from `i` on: the last `rc`, `i` and the state of Xen.
  unfoldable pub map_loop : (ℕ → W → ℤ × W) → (rounds i : ℕ) → W → ℤ × ℕ × W
  map_loop call zero i w = (pos 0, i, w)
  map_loop call (suc rounds) i w =
      let (rc, w') = call i w in
      let rest = map_loop call rounds (i + 1) w' in if fails rc then (rc, i + 1, w') else rest

  -- `pte_from_gfn(gfn, PF_SYM(AD, RW, P))`
  abbrev map_frame : (ℕ → ℕ) → ℕ → W → ℤ × W
  map_frame gfns i w = xen.update_va_mapping (gnttab_raw + i * 4096) (gfns i * 4096 + 0x63) w

  abbrev add_frame : ℕ → W → ℤ × W
  add_frame i w = xen.add_to_physmap i (gnttab_gfn + i) w

  -- behind the loop
  unfoldable pub report_map : ℤ × ℕ × W → Report → ℤ × (W × Report)
  report_map (rc, i, w) r =
      let failed =
        printk "%s() Failed to map gnttab[%u]: %d\n"
          (literal "arch_map_gnttab" ∷ int i ∷ int_of rc ∷ []) r in
      if fails rc then (negsuc 4, (w, failed)) else (pos 0, (w, r))

  unfoldable pub map_pv : W × Report → ℤ × (W × Report)
  map_pv (w, r) =
      let (((rc, status), gfns), w) = xen.setup_table w in
      let failed =
        printk "%s() GNTTABOP_setup_table failed: rc %d, status %d: %s\n"
          (literal "arch_map_gnttab"
            ∷ int_of rc
            ∷ int_of status
            ∷ literal (gntst_strerror status)
            ∷ [])
          r in
      let rest = report_map (map_loop (map_frame gfns) pages 0 w) r in
      if fails rc
      then (negsuc 4, (w, failed))
      else if fails status
      then (negsuc 4, (w, failed))
      else rest

  unfoldable pub arch_map_gnttab : W × Report → ℤ × (W × Report)
  arch_map_gnttab (w, r) =
      if config_pv then map_pv (w, r) else report_map (map_loop add_frame pages 0 w) r

  -- The statement about the version: `none` is `return -EIO`, `some` the value of `rc` behind it.
  unfoldable pub choose_version : ℕ → Grants → W × Report → Option ℤ × Grants × (W × Report)
  choose_version version g (w, r) =
      let (rc, w') = xen.set_version version w in
      let failed =
        printk "%s() GNTTABOP_set_version failed: rc %d\n"
          (literal "xtf_init_grant_table" ∷ int_of rc ∷ []) r in
      if g.set_version_unavailable
      then (some (pos 0), g, (w, r))
      else if is_enosys rc
      then (some rc, record g { set_version_unavailable = true }, (w', r))
      else if fails rc
      then (none, g, (w', failed))
      else (some rc, g, (w', r))

  -- the result of arch_map_gnttab()
  abbrev pub note_map : Grants → ℤ × (W × Report) → ℤ × Grants × (W × Report)
  note_map g (rc, s) = (rc, (if fails rc then g else record g { gnttab_mapped = true }), s)

  unfoldable pub map_once : ℤ → Grants → W × Report → ℤ × Grants × (W × Report)
  map_once rc g s =
      let mapped = note_map g (arch_map_gnttab s) in
      if not g.gnttab_mapped then mapped else (rc, g, s)

  unfoldable pub continue_init : ℕ → Option ℤ × Grants × (W × Report) → ℤ × Grants × (W × Report)
  continue_init version (none, g, s) = (negsuc 4, g, s)
  continue_init version (some rc, g, s) =
      if g.set_version_unavailable && not (version == 1) then (negsuc 18, g, s) else map_once rc g s

  unfoldable pub xtf_init_grant_table : ℕ → Grants → W × Report → ℤ × Grants × (W × Report)
  xtf_init_grant_table version g s = continue_init version (choose_version version g s)
