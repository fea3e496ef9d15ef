-- ===== src/Domid.antt =====
-- common/lib.c: the version of the sysctl interface and the ID of this domain. A function that calls
-- Xen takes the state of Xen and returns the new one beside its result.
pub mod Probe
pub mod Ports
pub mod Digits
use xtf.Base.{
  ℕ, zero, suc, ◌+◌, ◌-◌, ◌*◌, ◌%◌, ◌^◌, ◌≡◌, Bool, true, false, ◌==◌, leb, if◌then◌else◌, List, [],
  ◌∷◌, Option, some, none, get_or,
}
use xtf.Base.Int.{ℤ, pos, negsuc}
use xtf.Base.Text.{codes}
use xtf.Base.Run.{Run, ok, fault, ◌>>=◌}
use xtf.Printf.Parse.{isdigit}

-- the hypercalls of lib.c, arch_get_domid(), and the two functions of common/xenbus.c: the return value
-- with what is filled in, if the call fills in something
pub record Xen (W : Type 0) : Type 0 where
  pub sysctl : (interface_version : ℕ) → W → ℤ × W
  pub alloc_unbound : W → (ℤ × ℕ) × W
  pub port_status : (port : ℕ) → W → (ℤ × ℕ) × W
  pub close : (port : ℕ) → W → W
  pub arch_get_domid : W → ℤ × W
  pub xenstore_init : W → ℤ × W
  pub xenstore_read : List ℕ → W → Option (List ℕ) × W

-- `rc != 0`
abbrev pub is_error : ℤ → Bool
is_error (pos zero) = false
is_error rc = true

-- `hypercall_sysctl(&op) != -EACCES`
abbrev pub is_accepted : ℤ → Bool
is_accepted (negsuc n) = if n == 12 then false else true
is_accepted rc = true

-- `while ( isdigit(*str) )`; `unsigned int` wraps around.
unfoldable pub read_digits : List ℕ → ℕ → Run ℕ
read_digits [] domid = fault
read_digits (c ∷ str) domid =
    let rest = read_digits str ((domid * 10 + (c - b'0')) % 2 ^ 32) in
    if isdigit c then rest else ok domid

-- `if ( domid >= DOMID_FIRST_RESERVED ) return -1;`
abbrev pub below_reserved : ℕ → ℤ
below_reserved domid = if leb 0x7ff0 domid then negsuc 0 else pos domid

-- xenstore_get_domid() on the value of "domid"
unfoldable pub parse_domid : Option (List ℕ) → Run ℤ
parse_domid none = ok (negsuc 0)
parse_domid (some []) = fault
parse_domid (some (c ∷ str)) =
    let parsed = read_digits (c ∷ str) 0 >>= λ domid. ok (below_reserved domid) in
    if isdigit c then parsed else ok (negsuc 0)

module _ {W : Type 0} (xen : Xen W) where
  -- the loop with `rounds` left
  unfoldable pub probe_loop : (rounds i : ℕ) → W → ℤ × W
  probe_loop zero i w = (negsuc 0, w)
  probe_loop (suc rounds) i w =
      let (rc, w') = xen.sysctl i w in
      let rest = probe_loop rounds (i + 1) w' in if is_accepted rc then (pos i, w') else rest

  unfoldable pub xtf_probe_sysctl_interface_version : W → ℤ × W
  xtf_probe_sysctl_interface_version w = probe_loop 128 0 w

  -- from the port on
  unfoldable pub domid_of_port : ℕ → W → ℤ × W
  domid_of_port port w =
      let ((rc, dom), w) = xen.port_status port w in
      let w = xen.close port w in if is_error rc then (negsuc 0, w) else (pos dom, w)

  unfoldable pub evtchn_get_domid : W → ℤ × W
  evtchn_get_domid w =
      let ((rc, port), w) = xen.alloc_unbound w in
      let rest = domid_of_port port w in if is_error rc then (negsuc 0, w) else rest

  unfoldable pub xenstore_get_domid : W → Run (ℤ × W)
  xenstore_get_domid w =
      let (rc, w) = xen.xenstore_init w in
      let (str, w') = xen.xenstore_read (codes "domid") w in
      let rest = parse_domid str >>= λ domid. ok (domid, w') in
      if is_error rc then ok (negsuc 0, w) else rest

  -- `if ( rc >= 0 ) return rc;`, or what follows
  abbrev pub or_next : ℤ × W → (W → Run (ℤ × W)) → Run (ℤ × W)
  or_next (pos rc, w) next = ok (pos rc, w)
  or_next (negsuc rc, w) next = next w

  unfoldable pub xtf_get_domid : W → Run (ℤ × W)
  xtf_get_domid w = or_next (xen.arch_get_domid w) λ w.
      or_next (evtchn_get_domid w)
        λ w. xenstore_get_domid w >>= λ r. or_next r λ w. ok (negsuc 0, w)
