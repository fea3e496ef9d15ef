-- ===== src/Heapsort/Array.antt =====
-- Lists as arrays.
use mathlib.Core.List.{Perm, Permᴰ}
use mathlib.Core.List.Perm
use mathlib.Core.Path.{subst, sym}
use native.Mathlib.Nat.{ℕ_set}
use mathlib.Core.Option.{some-injective}
use mathlib.Core.Logic.{∥∥₁_elim}
use xtf.Base.{
  ℕ, zero, suc, ◌<◌, ◌≡◌, refl, ap, ◌==◌, if◌then◌else◌, List, [], ◌∷◌, some, length, get_elem?,
  set, arith, length-set, ◌∙◌,
}

module _ {A : Type 0} where
  pub get_elem?-some : (a : List A) (i : ℕ) → i < length a → (x : A) × (get_elem? a i ≡ some x)
  get_elem?-some [] i h = absurd (omega arith)
  get_elem?-some (x ∷ a) zero h = (x, refl)
  get_elem?-some (x ∷ a) (suc i) h = get_elem?-some a i (omega arith)

  pub get_elem?-set :
      (a : List A) (i j : ℕ) (v : A)
      → i < length a
      → get_elem? (set a i v) j ≡ (if i == j then some v else get_elem? a j)
  get_elem?-set [] i j v h = absurd (omega arith)
  get_elem?-set (x ∷ a) zero zero v h = refl
  get_elem?-set (x ∷ a) zero (suc j) v h = ground arith
  get_elem?-set (x ∷ a) (suc i) zero v h = ground arith
  get_elem?-set (x ∷ a) (suc i) (suc j) v h = ground (arith, get_elem?-set a i j v)

  unfoldable pub exchange : List A → ℕ → ℕ → A → A → List A
  exchange a i j x y = set (set a i y) j x

  pub length-exchange : (a : List A) (i j : ℕ) (x y : A) → length (exchange a i j x y) ≡ length a
  unfolding exchange
  length-exchange a i j x y = simp length-set

  pub get_elem?-lt : (a : List A) (i : ℕ) (x : A) → get_elem? a i ≡ some x → i < length a
  get_elem?-lt [] i x h = absurd (ground arith)
  get_elem?-lt (w ∷ a) zero x h = omega arith
  get_elem?-lt (w ∷ a) (suc i) x h = omega (arith, get_elem?-lt a i x h)

  -- A write trades the element that was there.
  set-perm : (a : List A) (i : ℕ) (x v : A) → get_elem? a i ≡ some x → Perm (x ∷ set a i v) (v ∷ a)
  set-perm [] i x v h = absurd (ground arith)
  set-perm (w ∷ a) zero x v h =
      subst (λ w. Perm (x ∷ v ∷ a) (v ∷ w ∷ a)) (sym (some-injective w x h)) (Perm.swap v x a)
  set-perm (w ∷ a) (suc i) x v h =
      Perm.trans (Perm.swap w x (set a i v))
        (Perm.trans (Perm.cons w (set-perm a i x v h)) (Perm.swap v w a))

  module _ (a : List A) (i j : ℕ) (x y : A) (hx : get_elem? a i ≡ some x)
      (hy : get_elem? a j ≡ some y) where
    pub get_elem?-exchange :
        (c : ℕ)
        → get_elem? (exchange a i j x y) c
          ≡ (if j == c then some x else if i == c then some y else get_elem? a c)
    unfolding exchange
    get_elem?-exchange c = rw (
      get_elem?-set (set a i y) j c x (rw length-set (get_elem?-lt a j y hy)),
      get_elem?-set a i c y (get_elem?-lt a i x hx),
    )

    pub exchange-perm : Perm (exchange a i j x y) a
    unfolding exchange
    exchange-perm =
        let kept : get_elem? (set a i y) j ≡ some y =
          get_elem?-set a i j y (get_elem?-lt a i x hx) ∙ ground arith in
        Perm.cons_inv (Perm.trans (set-perm (set a i y) j y x kept) (set-perm a i x y hx))

-- Two lists that are one up to order have one length.
pub length-perm : {A : Type 0} {one other : List A} → Perm one other → length one ≡ length other
length-perm p = ∥∥₁_elim p (ℕ_set _ _) steps
  where
    steps : {A : Type 0} {one other : List A} → Permᴰ one other → length one ≡ length other
    steps (Permᴰ.trans first second) = steps first ∙ steps second
    steps (Permᴰ.swap _ _) = refl
    steps (Permᴰ.cons _ rest) = ap suc (steps rest)
    steps Permᴰ.nil = refl
