-- ===== src/HvmTraps/Gates.antt =====
-- The interrupt descriptor table behind the calls of pack_intr_gate().
use mathlib.Core.Path.{subst}
use xtf.Base.{
  Bool, zero, suc, Bool-cases, inl, inr, not, ◌&&◌, ◌||◌, [], ◌∷◌, ℕ, ◌<◌, ◌≡◌, refl, ap, ◌∙◌, ◌==◌,
  ltb, true, false, if◌then◌else◌, List, All, length, set, get_elem?, Option, some, length-set,
  arith,
}
use xtf.Base.Run.{Returns, returned, Returns-weaken}
use xtf.Heapsort.Array.{get_elem?-set}
use xtf.Desc.{Gate64, pack_intr_gate}
use xtf.HvmTraps.{Vector, vectors, kern_cs, pack_all}

module _ (entry : ℕ → ℕ) where
  abbrev pub gate_of : Vector → Gate64
  gate_of v = pack_intr_gate kern_cs (entry v.vector) v.ring v.ist

  -- what a sequence of calls leaves in the slot `i`
  abbrev pub gate_for : List Vector → (i : ℕ) → Option Gate64 → Option Gate64
  gate_for [] i old = old
  gate_for (v ∷ vs) i old = gate_for vs i (if v.vector == i then some (gate_of v) else old)

  beyond :
      (vs : List Vector) (i : ℕ) (old : Option Gate64)
      → All (λ v. v.vector < i) vs
      → gate_for vs i old ≡ old
  beyond [] i old h = refl
  beyond (v ∷ vs) i old h =
      let e : (v.vector == i) ≡ false = ground (arith, h.0) in rw e (beyond vs i old h.1)

  pub record Packed (vs : List Vector) (idt after : List Gate64) : Type 0 where
    pub size : length after ≡ length idt
    pub slots : (i : ℕ) → get_elem? after i ≡ gate_for vs i (get_elem? idt i)

  pub pack_all-Packed :
      (vs : List Vector) (idt : List Gate64)
      → All (λ v. v.vector < length idt) vs
      → Returns (Packed vs idt) (pack_all entry vs idt)
  unfolding pack_all
  pack_all-Packed [] idt h = returned (record { size = refl; slots = λ i. refl })
  pack_all-Packed (v ∷ vs) idt h =
      let e : ltb v.vector (length idt) ≡ true = ground (arith, h.0) in
      let n = length-set idt v.vector (gate_of v) in
      rw e (
        Returns-weaken (pack_all-Packed vs (set idt v.vector (gate_of v)) (rw n h.1)) (λ after w.
          record {
            size = w.size ∙ n;
            slots =
                λ i. w.slots i ∙ ap (gate_for vs i) (get_elem?-set idt v.vector i (gate_of v) h.0);
          }))

-- The vectors with a gate: the exceptions that the processor has, and X86_VEC_RET2KERN. User mode may use
-- those of INT3, of INTO and of X86_VEC_RET2KERN, and the double fault has a stack of its own.
abbrev pub has_gate : ℕ → Bool
has_gate i = ltb i 21 && not (i == 9 || i == 15) || i == 32

abbrev pub expected : (entry : ℕ → ℕ) → (i : ℕ) → Option Gate64 → Option Gate64
expected entry i old =
    if has_gate i
    then some (
        pack_intr_gate 8 (entry i) (if i == 3 || (i == 4 || i == 32) then 3 else 0)
          (if i == 8 then 1 else 0))
    else old

same : (i n : ℕ) → (i == n) ≡ true → n ≡ i
same i n e = ground (arith, e)

AllBelow : ℕ → (ℕ → Type 0) → Type 0
AllBelow zero P = Unit
AllBelow (suc n) P = P n × AllBelow n P

below : (n : ℕ) (P : ℕ → Type 0) → AllBelow n P → (i : ℕ) → i < n → P i
unfolding AllBelow
below zero P h i lt = absurd (omega arith)
below (suc n) P h i lt = elim (Bool-cases (i == n)) [
  | inl e ↦ subst P (same i n e) h.0
  | inr e ↦ below n P h.1 i (ground (arith, e))
]

pub packed_gates :
    (entry : ℕ → ℕ) (i : ℕ) (old : Option Gate64)
    → gate_for entry vectors i old ≡ expected entry i old
unfolding AllBelow
packed_gates entry i old = elim (Bool-cases (ltb i 33)) [
  | inl e ↦
      below 33 (λ (j : ℕ). gate_for entry vectors j old ≡ expected entry j old)
        (
          refl,
          (
            refl,
            (
              refl,
              (
                refl,
                (
                  refl,
                  (
                    refl,
                    (
                      refl,
                      (
                        refl,
                        (
                          refl,
                          (
                            refl,
                            (
                              refl,
                              (
                                refl,
                                (
                                  refl,
                                  (
                                    refl,
                                    (
                                      refl,
                                      (
                                        refl,
                                        (
                                          refl,
                                          (
                                            refl,
                                            (
                                              refl,
                                              (
                                                refl,
                                                (
                                                  refl,
                                                  (
                                                    refl,
                                                    (
                                                      refl,
                                                      (
                                                        refl,
                                                        (
                                                          refl,
                                                          (
                                                            refl,
                                                            (
                                                            refl,
                                                            (
                                                            refl,
                                                            (
                                                            refl,
                                                            (refl, (refl, (refl, (refl, tt)))),
                                                            ),
                                                            ),
                                                            ),
                                                          ),
                                                        ),
                                                      ),
                                                    ),
                                                  ),
                                                ),
                                              ),
                                            ),
                                          ),
                                        ),
                                      ),
                                    ),
                                  ),
                                ),
                              ),
                            ),
                          ),
                        ),
                      ),
                    ),
                  ),
                ),
              ),
            ),
          ),
        )
        i (ground (arith, e))
  | inr e ↦
      let none_such : has_gate i ≡ false = ground (arith, e) in
      let far : 32 < i = ground (arith, e) in
      beyond entry vectors i old (omega (arith, far)) ∙ rw none_such refl
]
