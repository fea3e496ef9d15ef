-- ===== src/Domid/Probe.antt =====
-- xtf_probe_sysctl_interface_version() of common/lib.c.
use xtf.Base.{
  ℕ, zero, suc, ◌+◌, ◌<◌, ◌≡◌, refl, ap, ◌∙◌, true, false, ltb, arith, Bool-cases, inl, inr,
}
use xtf.Base.Int.{ℤ, pos, negsuc}
use xtf.Domid.{Xen, is_accepted, probe_loop, xtf_probe_sysctl_interface_version}

-- The first of 128 versions whose answer is not -EACCES, or -1 if there is none.
pub data FirstAccepted (answer : ℕ → ℤ) : ℤ → Type 0 where
  first :
      (i : ℕ)
      → i < 128
      → is_accepted (answer i) ≡ true
      → ((j : ℕ) → j < i → is_accepted (answer j) ≡ false)
      → FirstAccepted answer (pos i)
  none_accepted :
      ((j : ℕ) → j < 128 → is_accepted (answer j) ≡ false) → FirstAccepted answer (negsuc 0)

module _ {W : Type 0} (xen : Xen W) (answer : ℕ → ℤ)
    (h : (i : ℕ) (w : W) → (xen.sysctl i w).0 ≡ answer i) where
  probe_loop-FirstAccepted :
      (rounds i : ℕ) (w : W)
      → rounds + i ≡ 128
      → ((j : ℕ) → j < i → is_accepted (answer j) ≡ false)
      → FirstAccepted answer (probe_loop xen rounds i w).0
  unfolding probe_loop
  probe_loop-FirstAccepted zero i w e refused = none_accepted (λ j k. refused j (omega arith))
  probe_loop-FirstAccepted (suc rounds) i w e refused = elim (Bool-cases (is_accepted (answer i))) [
    | inl yes_it_is ↦ rw (h i w, yes_it_is) (first i (omega arith) yes_it_is refused)
    | inr not_it ↦
        rw (h i w, not_it)
          (probe_loop-FirstAccepted rounds (i + 1) (xen.sysctl i w).1 (omega arith) λ j k.
            elim (Bool-cases (ltb j i)) [
              | inl lt ↦ refused j (ground arith)
              | inr ge ↦ ap (λ v. is_accepted (answer v)) (ground arith) ∙ not_it
            ])
  ]

  -- Against a Xen whose answer depends on the version alone the probe returns the first version below
  -- 128 that is not refused with -EACCES, and -1 if all are.
  pub xtf_probe_sysctl_interface_version_lem :
      (w : W) → FirstAccepted answer (xtf_probe_sysctl_interface_version xen w).0
  unfolding xtf_probe_sysctl_interface_version
  xtf_probe_sysctl_interface_version_lem w =
      probe_loop-FirstAccepted 128 0 w refl (λ j k. absurd (omega arith))
