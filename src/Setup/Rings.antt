-- ===== src/Setup/Rings.antt =====
-- The rings that arch/x86/setup.c finds for the console and for xenbus.
use xtf.Base.{
  ℕ, zero, suc, ◌/◌, ◌%◌, ◌^◌, ◌==◌, Bool, true, false, if◌then◌else◌, List, Option, some, none,
}
use xtf.Base.Int.{ℤ, pos, negsuc}
use xtf.Paging.{pfn_to_virt, mfn_to_virt}
use xtf.Console.{init_pv_console}
use xtf.Xenbus.{init_xenbus}

-- the members of `xen_pv_start_info_t` that are used here
pub record PvStartInfo : Type 0 where
  pub flags : ℕ
  pub store_mfn : ℕ
  pub store_evtchn : ℕ
  pub console_mfn : ℕ
  pub console_evtchn : ℕ

-- A PV guest; or an HVM guest, with the flags of `pvh_start_info` if that is not NULL and what
-- hvm_get_param() returns and stores for an index.
pub data Environment : Type 0 where
  pv : PvStartInfo → Environment
  hvm : (pvh_flags : Option ℕ) (hvm_get_param : ℕ → ℤ × ℕ) → Environment

abbrev pub init_flag : ℕ → Bool
init_flag flags = flags / 2 % 2 == 1

abbrev pub pvh_flag : Option ℕ → Bool
pvh_flag none = false
pvh_flag (some flags) = init_flag flags

unfoldable pub is_initdomain : Environment → Bool
is_initdomain (pv info) = init_flag info.flags
is_initdomain (hvm pvh_flags hvm_get_param) = pvh_flag pvh_flags

abbrev pub is_zero : ℤ → Bool
is_zero (pos zero) = true
is_zero (pos (suc n)) = false
is_zero (negsuc n) = false

module _ (m2p p2m : ℕ → ℕ) where
  -- `pv_ring`, `pv_evtchn` and the callbacks, for the address `fn` of pv_console_write(); `none` is a panic.
  unfoldable pub setup_pv_console :
      (fn : ℕ) → Environment → ℕ × (ℕ × List ℕ) → Option (ℕ × (ℕ × List ℕ))
  setup_pv_console fn (pv info) (ring, (port, output_fns)) =
      init_pv_console fn (mfn_to_virt m2p p2m info.console_mfn) (info.console_evtchn % 2 ^ 32)
        output_fns
  setup_pv_console fn (hvm pvh_flags hvm_get_param) (ring, (port, output_fns)) =
      let (rc, raw_pfn) = hvm_get_param 17 in
      let (rc', raw_evtchn) = hvm_get_param 18 in
      let found = init_pv_console fn (pfn_to_virt raw_pfn) (raw_evtchn % 2 ^ 32) output_fns in
      if is_zero rc
      then if is_zero rc' then found else some (ring, (port, output_fns))
      else some (ring, (port, output_fns))

  -- `xb_ring` and `xb_port`; `none` is a panic.
  unfoldable pub setup_xenbus : Environment → Option (ℕ × ℕ)
  setup_xenbus (pv info) =
      init_xenbus (mfn_to_virt m2p p2m info.store_mfn) (info.store_evtchn % 2 ^ 32)
  setup_xenbus (hvm pvh_flags hvm_get_param) =
      let (rc, raw_pfn) = hvm_get_param 1 in
      let (rc', raw_evtchn) = hvm_get_param 2 in
      let found = init_xenbus (pfn_to_virt raw_pfn) (raw_evtchn % 2 ^ 32) in
      if is_zero rc then if is_zero rc' then found else none else none
