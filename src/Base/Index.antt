-- ===== src/Base/Index.antt =====
-- Elements of lists by their index.
use xtf.Base.{
  ℕ, zero, suc, ◌+◌, ◌-◌, ◌<◌, ◌≤◌, ◌≡◌, refl, ap, ap₂, ◌∙◌, ltb, if◌then◌else◌, List, [], ◌∷◌,
  ◌++◌, length, take, drop, get_elem?, arith,
}
use mathlib.Core.Option.{some-injective}

module _ {A : Type 0} where
  pub get_elem?-append :
      (s t : List A) (i : ℕ)
      → get_elem? (s ++ t) i
        ≡ (if ltb i (length s) then get_elem? s i else get_elem? t (i - length s))
  get_elem?-append [] t i = ground arith
  get_elem?-append (x ∷ s) t zero = ground arith
  get_elem?-append (x ∷ s) t (suc i) = ground (arith, get_elem?-append s t i)

  pub get_elem?-take : (n : ℕ) (s : List A) (i : ℕ) → i < n → get_elem? (take n s) i ≡ get_elem? s i
  get_elem?-take zero s i h = absurd (omega arith)
  get_elem?-take (suc n) [] i h = refl
  get_elem?-take (suc n) (x ∷ s) zero h = refl
  get_elem?-take (suc n) (x ∷ s) (suc i) h = get_elem?-take n s i (omega arith)

  pub get_elem?-drop : (n : ℕ) (s : List A) (i : ℕ) → get_elem? (drop n s) i ≡ get_elem? s (n + i)
  get_elem?-drop zero s i = ap (get_elem? s) (omega arith)
  get_elem?-drop (suc n) [] i = refl
  get_elem?-drop (suc n) (x ∷ s) i =
      let e : suc (n + i) ≡ suc n + i = omega arith in
      get_elem?-drop n s i ∙ ap (get_elem? (x ∷ s)) e

  -- Two lists of one length with the same elements are the same.
  pub by_elements :
      (s t : List A)
      → length s ≡ length t
      → ((i : ℕ) → i < length s → get_elem? s i ≡ get_elem? t i)
      → s ≡ t
  by_elements [] [] e h = refl
  by_elements [] (y ∷ t) e h = absurd (omega (arith, e))
  by_elements (x ∷ s) [] e h = absurd (omega (arith, e))
  by_elements (x ∷ s) (y ∷ t) e h =
      ap₂ ◌∷◌ (some-injective x y (h 0 (omega arith)))
        (by_elements s t (omega (arith, e)) (λ i k. h (suc i) (omega arith)))

pub take_all {ℓ} : {A : Type ℓ} (n : ℕ) (s : List A) → length s ≤ n → take n s ≡ s
take_all zero [] h = refl
take_all zero (x ∷ s) h = absurd (omega arith)
take_all (suc n) [] h = refl
take_all (suc n) (x ∷ s) h = ap (◌∷◌ x) (take_all n s (omega arith))
