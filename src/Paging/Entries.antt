-- ===== src/Paging/Entries.antt =====
-- Page table entries and conversions of addresses.
use xtf.Base.{ℕ, ◌+◌, ◌*◌, ◌/◌, ◌%◌, ◌^◌, ◌<◌, ◌≡◌, arith}
use xtf.Paging.{
  fold_pse36, unfold_pse36, pte_to_paddr, pte_from_paddr, pte_from_gfn, pte_from_virt, pfn_to_virt,
  virt_to_pfn, mfn_to_virt, maddr_to_virt, virt_to_mfn, virt_to_maddr,
}

-- An entry of 32 bits that is unfolded to an address of 41 bits is folded back; and so is the other way
-- round a value below 2^41 whose bits 13 to 21 are clear.
pub fold-unfold_pse36 :
    (entry val : ℕ)
    → entry < 2 ^ 32
    → val < 2 ^ 41
    → val / 2 ^ 13 % 2 ^ 9 ≡ 0
    → (fold_pse36 (unfold_pse36 entry) ≡ entry) × (unfold_pse36 (fold_pse36 val) ≡ val)
unfolding fold_pse36 unfold_pse36
fold-unfold_pse36 entry val small wide clear = (omega arith, omega arith)

-- A page table entry that is built from a frame number below 2^40 and flags of 64 bits has the address
-- of the frame, and the flags of the entry outside the bits for the address.
pub pte_from_gfn_lem :
    (gfn flags : ℕ)
    → gfn < 2 ^ 40
    → flags < 2 ^ 64
    → (pte_to_paddr (pte_from_gfn gfn flags) ≡ gfn * 2 ^ 12)
      × (pte_from_gfn gfn flags % 2 ^ 12 ≡ flags % 2 ^ 12)
      × (pte_from_gfn gfn flags / 2 ^ 52 ≡ flags / 2 ^ 52)
      × (pte_from_gfn gfn flags < 2 ^ 64)
unfolding pte_to_paddr pte_from_gfn pte_from_paddr
pte_from_gfn_lem gfn flags small wide = (omega arith, omega arith, omega arith, omega arith)

-- For an address of 64 bits whose frame is below 2^40 in the guest's table and has its inverse in Xen's,
-- maddr_to_virt() gets the address back from virt_to_maddr(), and the entry that pte_from_virt() builds
-- for it has the machine address of its page.
pub maddr_to_virt-virt_to_maddr :
    (m2p p2m : ℕ → ℕ) (va flags : ℕ)
    → va < 2 ^ 64
    → p2m (va / 2 ^ 12) < 2 ^ 40
    → m2p (p2m (va / 2 ^ 12)) ≡ va / 2 ^ 12
    → (maddr_to_virt m2p p2m (virt_to_maddr m2p p2m va) ≡ va)
      × (pte_to_paddr (pte_from_virt m2p p2m va flags) + va % 2 ^ 12 ≡ virt_to_maddr m2p p2m va)
unfolding maddr_to_virt virt_to_maddr pte_to_paddr pte_from_virt pte_from_paddr mfn_to_virt
    virt_to_mfn pfn_to_virt virt_to_pfn
maddr_to_virt-virt_to_maddr m2p p2m va flags small frame inverse =
    let mfn = p2m (va / 2 ^ 12) in
    let e : (mfn * 2 ^ 12 % 2 ^ 64 + va % 2 ^ 12) % 2 ^ 64 / 2 ^ 12 ≡ mfn = omega (arith, frame) in
    (rw (e, inverse) (omega arith), omega (arith, frame))
