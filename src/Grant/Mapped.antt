-- ===== src/Grant/Mapped.antt =====
-- xtf_init_grant_table() against a Xen that does what the hypercalls are documented to do.
use xtf.Base.{
  ℕ, ◌+◌, ◌*◌, ◌≡◌, ◌≢◌, refl, sym, ap, ◌∙◌, ◌==◌, ◌&&◌, not, Bool, true, false, if◌then◌else◌,
  Bool-cases, inl, inr, zero, suc, Option, some, arith,
}
use xtf.Base.Int.{ℤ, pos, negsuc}
use xtf.Report.{Report}
use xtf.Grant.{
  Xen, Grants, fails, is_enosys, map_loop, report_map, map_pv, arch_map_gnttab, choose_version,
  note_map, map_once, continue_init, xtf_init_grant_table,
}

-- What can be seen of Xen: the entry of a PV guest's page tables at an address, the grant frame that an HVM
-- guest has at a frame number, and the version of the grant table. The machine frame of the first
-- grant frame is `table_frame`. `one_version` tells that there is no GNTTABOP_set_version, and so
-- that the version is 1.
pub record KeepsGrants {W : Type 0} (xen : Xen W) (entry_at : W → ℕ → ℕ)
    (grant_at : W → ℕ → Option ℕ) (version_of : W → ℕ) (table_frame : ℕ) (one_version : Bool)
    : Type 0 where
  pub refuses : (v : ℕ) (w : W) → is_enosys (xen.set_version v w).0 ≡ one_version
  pub only_one : one_version ≡ true → (w : W) → version_of w ≡ 1
  pub sets :
      (v : ℕ) (w : W) → (xen.set_version v w).0 ≡ pos 0 → version_of (xen.set_version v w).1 ≡ v
  pub keeps_entries : (v : ℕ) (w : W) (x : ℕ) → entry_at (xen.set_version v w).1 x ≡ entry_at w x
  pub keeps_grants : (v : ℕ) (w : W) (x : ℕ) → grant_at (xen.set_version v w).1 x ≡ grant_at w x
  pub lists :
      (w : W)
      → (xen.setup_table w).0.0.0 ≡ pos 0
      → (xen.setup_table w).0.0.1 ≡ pos 0
      → (xen.setup_table w).0.1 0 ≡ table_frame
  pub lists_keeps : (w : W) → version_of (xen.setup_table w).1 ≡ version_of w
  pub updates :
      (va pte : ℕ) (w : W)
      → (xen.update_va_mapping va pte w).0 ≡ pos 0
      → entry_at (xen.update_va_mapping va pte w).1 va ≡ pte
  pub updates_keeps :
      (va pte : ℕ) (w : W) → version_of (xen.update_va_mapping va pte w).1 ≡ version_of w
  pub adds :
      (idx gfn : ℕ) (w : W)
      → (xen.add_to_physmap idx gfn w).0 ≡ pos 0
      → grant_at (xen.add_to_physmap idx gfn w).1 gfn ≡ some idx
  pub adds_keeps :
      (idx gfn : ℕ) (w : W) → version_of (xen.add_to_physmap idx gfn w).1 ≡ version_of w

fails-zero : (rc : ℤ) → fails rc ≡ true → rc ≢ pos 0
fails-zero (pos zero) h e = absurd (ground arith)
fails-zero (pos (suc n)) h e = absurd cc
fails-zero (negsuc n) h e = absurd cc

-- a property of both branches
split :
    {A : Type 0} (P : A → Type 0) (b : Bool) (x y : A)
    → (b ≡ true → P x)
    → (b ≡ false → P y)
    → P (if b then x else y)
split P true x y p q = p refl
split P false x y p q = q refl

zero_of : (rc : ℤ) → fails rc ≡ false → rc ≡ pos 0
zero_of (pos zero) e = refl
zero_of (pos (suc n)) e = absurd (ground arith)
zero_of (negsuc n) e = absurd (ground arith)

module _ {W : Type 0} (xen : Xen W) (entry_at : W → ℕ → ℕ) (grant_at : W → ℕ → Option ℕ)
    (version_of : W → ℕ) (table_frame : ℕ) (one_version : Bool)
    (laws : KeepsGrants xen entry_at grant_at version_of table_frame one_version)
    (raw gfn : ℕ) where
  -- The first grant frame is at gnttab_raw[]: writable, with its accessed and dirty bits, for a PV guest.
  abbrev pub IsMapped : (pv : Bool) → W → Type 0
  IsMapped true w = entry_at w raw ≡ table_frame * 4096 + 0x63
  IsMapped false w = grant_at w gfn ≡ some 0

  -- the static variables are right
  pub record IsRight (pv : Bool) (g : Grants) (w : W) : Type 0 where
    pub mapped : g.gnttab_mapped ≡ true → IsMapped pv w
    pub unavailable : g.set_version_unavailable ≡ true → one_version ≡ true

  record Maps (pv : Bool) (before : W) (out : ℤ × (W × Report)) : Type 0 where
    maps : fails out.0 ≡ false → IsMapped pv out.1.0
    version : version_of out.1.0 ≡ version_of before

  one_page :
      (pv : Bool) (call : ℕ → W → ℤ × W) (before w : W) (r : Report)
      → ((call 0 w).0 ≡ pos 0 → IsMapped pv (call 0 w).1)
      → version_of (call 0 w).1 ≡ version_of before
      → Maps pv before (report_map xen pv raw gfn (map_loop xen pv raw gfn call 1 0 w) r)
  unfolding map_loop report_map
  one_page pv call before w r m v = elim (Bool-cases (fails (call 0 w).0)) [
    | inl bad ↦ rw (bad, bad) (record { maps = λ e. absurd (ground arith); version = v })
    | inr good ↦ rw good (record { maps = λ e. m (zero_of _ good); version = v })
  ]

  arch_map_gnttab-Maps :
      (pv : Bool) (s : W × Report) → Maps pv s.0 (arch_map_gnttab xen pv raw gfn s)
  unfolding arch_map_gnttab map_pv
  arch_map_gnttab-Maps false (w, r) =
      one_page false _ w w r (λ e. ap (grant_at _) (omega arith) ∙ laws.adds 0 (gfn + 0) w e)
        (laws.adds_keeps 0 (gfn + 0) w)
  arch_map_gnttab-Maps true (w, r) =
      let w' = (xen.setup_table w).1 in
      let pte = (xen.setup_table w).0.1 0 * 4096 + 0x63 in
      elim (Bool-cases (fails (xen.setup_table w).0.0.0)) [
        | inl bad ↦
            rw bad (record { maps = λ e. absurd (ground arith); version = laws.lists_keeps w })
        | inr good ↦ rw good (elim (Bool-cases (fails (xen.setup_table w).0.0.1)) [
          | inl bad ↦
              rw bad (record { maps = λ e. absurd (ground arith); version = laws.lists_keeps w })
          | inr fine ↦
              let frame = laws.lists w (zero_of _ good) (zero_of _ fine) in
              rw fine (
                one_page true _ w w' r
                  (λ e.
                    ap (entry_at _) (omega arith)
                    ∙ laws.updates (raw + 0 * 4096) pte w' e
                    ∙ ap (λ f. f * 4096 + 0x63) frame)
                  (laws.updates_keeps (raw + 0 * 4096) pte w' ∙ laws.lists_keeps w))
        ])
      ]

  -- what holds behind xtf_init_grant_table()
  pub record Initialised (pv : Bool) (version : ℕ) (out : ℤ × Grants × (W × Report)) : Type 0 where
    pub right : IsRight pv out.1 out.2.0
    pub mapped : out.0 ≡ pos 0 → IsMapped pv out.2.0
    pub versioned : out.0 ≡ pos 0 → version_of out.2.0 ≡ version

  noted :
      (pv : Bool) (version : ℕ) (g : Grants) (before : W) (t : ℤ × (W × Report))
      → g.gnttab_mapped ≡ false
      → (g.set_version_unavailable ≡ true → one_version ≡ true)
      → version_of before ≡ version
      → Maps pv before t
      → Initialised pv version (note_map xen pv raw gfn g t)
  noted pv version g before (rc, (w, r)) fresh one v m = elim (Bool-cases (fails rc)) [
    | inl bad ↦ rw bad (record {
      right = record { mapped = λ e. absurd (ground (arith, fresh, e)); unavailable = one };
      mapped = λ e. absurd (fails-zero rc bad e);
      versioned = λ e. m.version ∙ v;
    })
    | inr good ↦ rw good (record {
      right = record { mapped = λ e. m.maps good; unavailable = one };
      mapped = λ e. m.maps good;
      versioned = λ e. m.version ∙ v;
    })
  ]

  refused :
      (pv : Bool) (version n : ℕ) (g : Grants) (w : W) (r : Report)
      → IsRight pv g w
      → Initialised pv version (negsuc n, g, (w, r))
  refused pv version n g w r right = record {
    right = right;
    mapped = λ e. absurd (fails-zero (negsuc n) refl e);
    versioned = λ e. absurd (fails-zero (negsuc n) refl e);
  }

  continued :
      (pv : Bool) (version : ℕ) (rc : ℤ) (g : Grants) (w : W) (r : Report)
      → IsRight pv g w
      → (g.set_version_unavailable ≡ false → version_of w ≡ version)
      → Initialised pv version (continue_init xen pv raw gfn version (some rc, g, (w, r)))
  unfolding continue_init map_once
  continued pv version rc g w r right v =
      split (Initialised pv version) (g.set_version_unavailable && not (version == 1)) _ _
        (λ old. refused pv version 18 g w r right)
        λ fine.
          let versioned : version_of w ≡ version = elim (Bool-cases g.set_version_unavailable) [
            | inl one ↦ laws.only_one (right.unavailable one) w ∙ ground (arith, fine, one)
            | inr several ↦ v several
          ] in
          split (Initialised pv version) (not g.gnttab_mapped) _ _
            (λ fresh.
              noted pv version g w (arch_map_gnttab xen pv raw gfn (w, r)) (ground (arith, fresh))
                right.unavailable versioned (arch_map_gnttab-Maps pv (w, r)))
            (λ kept. record {
              right = right;
              mapped = λ e. right.mapped (ground (arith, kept));
              versioned = λ e. versioned;
            })

  -- a call of GNTTABOP_set_version leaves the mapping
  set_version-IsMapped :
      (pv : Bool) (version : ℕ) (w : W) → IsMapped pv w → IsMapped pv (xen.set_version version w).1
  set_version-IsMapped true version w m = laws.keeps_entries version w raw ∙ m
  set_version-IsMapped false version w m = laws.keeps_grants version w gfn ∙ m

  -- Given a Xen that does what KeepsGrants says, and static variables that are right: they are right behind
  -- xtf_init_grant_table(), that is, gnttab_mapped only if the first grant frame is at gnttab_raw[],
  -- and set_version_unavailable only if Xen has no GNTTABOP_set_version. If the function returns 0,
  -- the first grant frame is at gnttab_raw[], and the grant table has the version that was asked for.
  pub xtf_init_grant_table_lem :
      (pv : Bool) (version : ℕ) (g : Grants) (w : W) (r : Report)
      → IsRight pv g w
      → Initialised pv version (xtf_init_grant_table xen pv raw gfn version g (w, r))
  unfolding xtf_init_grant_table choose_version continue_init
  xtf_init_grant_table_lem pv version g w r right =
      let (rc, w') = xen.set_version version w in
      let right' : IsRight pv g w' = record {
        mapped = λ e. set_version-IsMapped pv version w (right.mapped e);
        unavailable = right.unavailable;
      } in
      let P : Option ℤ × Grants × (W × Report) → Type 0 =
        λ c. Initialised pv version (continue_init xen pv raw gfn version c) in
      split P g.set_version_unavailable _ _
        (λ one.
          continued pv version (pos 0) g w r right
            (λ several. absurd (ground (arith, one, several))))
        λ several.
          split P (is_enosys rc) _ _
            (λ enosys.
              continued pv version rc (record g { set_version_unavailable = true }) w' r
                (record {
                  mapped = right'.mapped;
                  unavailable = λ e. sym (laws.refuses version w) ∙ enosys;
                })
                (λ e. absurd (ground (arith, e))))
            λ known.
              split P (fails rc) _ _ (λ bad. refused pv version 4 g w' _ right')
                λ good.
                  continued pv version rc g w' r right' (λ e. laws.sets version w (zero_of rc good))
