-- ===== src/Setup/Leaves.antt =====
-- The search for Xen's CPUID leaves.
use xtf.Base.{
  ℕ, zero, suc, ◌≤◌, ◌-◌, ◌%◌, ◌^◌, ◌+◌, ◌*◌, ◌<◌, ◌≡◌, true, false, Option, some, none, arith,
  Bool-cases, inl, inr,
}
use mathlib.Core.Path.{subst}
use xtf.Setup.{CpuidLeaf, is_xen, search_leaves, find_xen_leaves}

module _ (cpuid_fn : (leaf subleaf : ℕ) → CpuidLeaf) where
  -- what the public header of Xen says of its first leaf
  pub HasSignature : ℕ → Type 0
  HasSignature l =
      ((cpuid_fn l 0).b ≡ 0x566e6558)
      × ((cpuid_fn l 0).c ≡ 0x65584d4d)
      × ((cpuid_fn l 0).d ≡ 0x4d4d566e)
      × (2 ≤ ((cpuid_fn l 0).a + 2 ^ 32 - l) % 2 ^ 32)

  is_xen-true : (l : ℕ) → is_xen l (cpuid_fn l 0) ≡ true → HasSignature l
  unfolding HasSignature
  is_xen-true l e = (ground (arith, e), ground (arith, e), ground (arith, e), ground (arith, e))

  is_xen-false : (l : ℕ) → is_xen l (cpuid_fn l 0) ≡ false → ¬ HasSignature l
  unfolding HasSignature
  is_xen-false l e (b, c, d, a) = ground (arith, e, b, c, d, a)

  -- The first of `n` candidates from `l` on that passes the test, or none.
  pub data Searched (n l : ℕ) : Option ℕ → Type 0 where
    found :
        (i : ℕ) (m : ℕ)
        → i < n
        → m ≡ l + i * 0x100
        → HasSignature m
        → ((j : ℕ) → j < i → ¬ HasSignature (l + j * 0x100))
        → Searched n l (some m)
    missing : ((j : ℕ) → j < n → ¬ HasSignature (l + j * 0x100)) → Searched n l none

  onward :
      (l : ℕ) (k : ℕ)
      → ¬ HasSignature l
      → ((j : ℕ) → j < k → ¬ HasSignature (l + 0x100 + j * 0x100))
      → (j : ℕ) → j < suc k
      → ¬ HasSignature (l + j * 0x100)
  onward l k e h zero lt = subst (λ (v : ℕ). ¬ HasSignature v) (omega arith) e
  onward l k e h (suc j) lt = subst (λ (v : ℕ). ¬ HasSignature v) (omega arith) (h j (omega arith))

  later :
      (n l : ℕ) (r : Option ℕ) → ¬ HasSignature l → Searched n (l + 0x100) r → Searched (suc n) l r
  later n l r e (found i m lt at passes before) =
      found (suc i) m (omega arith) (omega (arith, at)) passes (onward l i e before)
  later n l r e (missing all) = missing (onward l n e all)

  search_leaves-Searched : (n l : ℕ) → Searched n l (search_leaves cpuid_fn n l)
  unfolding search_leaves
  search_leaves-Searched zero l = missing (λ j lt. absurd (omega arith))
  search_leaves-Searched (suc n) l = elim (Bool-cases (is_xen l (cpuid_fn l 0))) [
    | inl e ↦
        rw e
          (found 0 l (omega arith) (omega arith) (is_xen-true l e) (λ j lt. absurd (omega arith)))
    | inr e ↦ rw e (
        later n l (search_leaves cpuid_fn n (l + 0x100)) (is_xen-false l e)
          (search_leaves-Searched n (l + 0x100)))
  ]

  -- The first call of find_xen_leaves() returns the first of the 256 candidates that has Xen's signature
  -- and two leaves or more behind it, and panics if there is none.
  pub find_xen_leaves_lem : Searched 0x100 0x40000000 (find_xen_leaves cpuid_fn 0)
  unfolding find_xen_leaves
  find_xen_leaves_lem = search_leaves-Searched 0x100 0x40000000
