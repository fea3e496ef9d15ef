-- ===== src/Domid/Ports.antt =====
-- evtchn_get_domid() of common/lib.c leaks no event channel.
use xtf.Base.{ℕ, ◌≡◌, ◌∙◌, true, false, List, ◌∷◌, Bool-cases, inl, inr}
use xtf.Domid.{Xen, is_error, domid_of_port, evtchn_get_domid}

-- What Xen does with the ports that this domain has allocated.
pub record TracksPorts {W : Type 0} (xen : Xen W) (ports : W → List ℕ) : Type 0 where
  pub allocates :
      (w : W)
      → is_error (xen.alloc_unbound w).0.0 ≡ false
      → ports (xen.alloc_unbound w).1 ≡ (xen.alloc_unbound w).0.1 ∷ ports w
  pub refuses :
      (w : W) → is_error (xen.alloc_unbound w).0.0 ≡ true → ports (xen.alloc_unbound w).1 ≡ ports w
  pub looks : (port : ℕ) (w : W) → ports (xen.port_status port w).1 ≡ ports w
  pub closes :
      (port : ℕ) (w : W) (others : List ℕ)
      → ports w ≡ port ∷ others
      → ports (xen.close port w) ≡ others

module _ {W : Type 0} (xen : Xen W) (ports : W → List ℕ) (law : TracksPorts xen ports) where
  domid_of_port-ports :
      (port : ℕ) (w : W) (others : List ℕ)
      → ports w ≡ port ∷ others
      → ports (domid_of_port xen port w).1 ≡ others
  unfolding domid_of_port
  domid_of_port-ports port w others e =
      let closed = law.closes port (xen.port_status port w).1 others (law.looks port w ∙ e) in
      elim (Bool-cases (is_error (xen.port_status port w).0.0)) [
        | inl failed ↦ rw failed closed
        | inr fine ↦ rw fine closed
      ]

  -- Whichever of its hypercalls fails, evtchn_get_domid() leaves the allocated ports as they were.
  pub evtchn_get_domid-ports : (w : W) → ports (evtchn_get_domid xen w).1 ≡ ports w
  unfolding evtchn_get_domid
  evtchn_get_domid-ports w = elim (Bool-cases (is_error (xen.alloc_unbound w).0.0)) [
    | inl failed ↦ rw failed (law.refuses w failed)
    | inr fine ↦ rw fine (
        domid_of_port-ports (xen.alloc_unbound w).0.1 (xen.alloc_unbound w).1 (ports w)
          (law.allocates w fine))
  ]
