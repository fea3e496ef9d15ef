-- ===== src/Tests/Grant.antt =====
-- common/grant_table.c at concrete inputs.
use xtf.Base.{ℕ, ◌≡◌, refl, ◌==◌, true, false, if◌then◌else◌, Option, some, none, arith}
use xtf.Base.Int.{pos, negsuc}
use xtf.Report.{initial}
use xtf.Grant.{Xen, Grants, xtf_init_grant_table}
use xtf.Grant.Mapped.{KeepsGrants, Initialised, xtf_init_grant_table_lem}

-- the page tables and the physical map of a guest
abbrev State : Type 0
State = (ℕ → ℕ) × (ℕ → Option ℕ)

-- An old Xen without GNTTABOP_set_version.
abbrev old : Xen State
old = record {
  set_version = λ version w. (negsuc 37, w);
  setup_table = λ w. (((pos 0, pos 0), λ i. 5), w);
  update_va_mapping =
      λ va pte (entries, grants). (pos 0, (λ x. if x == va then pte else entries x, grants));
  add_to_physmap =
      λ idx gfn (entries, grants). (pos 0, (entries, λ x. if x == gfn then some idx else grants x));
}

same_number : (n : ℕ) → (n == n) ≡ true
same_number n = ground arith

old-KeepsGrants : KeepsGrants old (λ w. w.0) (λ w. w.1) (λ w. 1) 5 true
old-KeepsGrants = record {
  refuses = λ v w. refl;
  only_one = λ e w. refl;
  sets = λ v w e. absurd cc;
  keeps_entries = λ v w x. refl;
  keeps_grants = λ v w x. refl;
  lists = λ w e f. refl;
  lists_keeps = λ w. refl;
  updates = λ va pte w e. rw (same_number va) refl;
  updates_keeps = λ va pte w. refl;
  adds = λ idx gfn w e. rw (same_number gfn) refl;
  adds_keeps = λ idx gfn w. refl;
}

abbrev none_yet : Grants
none_yet = record { set_version_unavailable = false; gnttab_mapped = false }

abbrev empty : State
empty = (λ x. 0, λ x. none)

xtf_init_grant_table_lem_example :
    Initialised old
      (λ w. w.0)
      (λ w. w.1)
      (λ w. 1)
      5
      true
      old-KeepsGrants
      0x100000
      0x100
      false
      1
      (xtf_init_grant_table old false 0x100000 0x100 1 none_yet (empty, initial))
xtf_init_grant_table_lem_example =
    xtf_init_grant_table_lem old (λ w. w.0) (λ w. w.1) (λ w. 1) 5 true old-KeepsGrants 0x100000
      0x100 false 1 none_yet empty initial
      (record { mapped = λ e. absurd cc; unavailable = λ e. absurd cc })
