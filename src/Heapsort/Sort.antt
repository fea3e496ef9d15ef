-- ===== src/Heapsort/Sort.antt =====
-- heapsort() of common/heapsort.c.
use mathlib.Core.List.{Perm}
use mathlib.Core.List.Perm
use mathlib.Core.Path.{subst}
use native.Mathlib.Nat.{mul_comm, zero-mul}
use xtf.Base.{
  ℕ, zero, suc, ◌-◌, ◌*◌, ◌/◌, ◌<◌, ◌≤◌, ◌≡◌, ◌∙◌, ap, ◌==◌, if◌then◌else◌, List, some, length,
  get_elem?, arith,
}
use xtf.Base.Run.{ok, Returns, returned, Returns-bind, Returns-weaken}
use xtf.Heapsort.{Client, IsLawful, swap_at, siftdown, build, drain, heapsort}
use xtf.Heapsort.Array.{exchange, get_elem?-some, get_elem?-exchange, exchange-perm, length-perm}
use xtf.Heapsort.Index.{rank_of, swap_at-scaled}
use xtf.Heapsort.Order.{parent, key, IsHeapFrom, Sifted, SiftInv}
use xtf.Heapsort.Sift.{siftdown-Sifted}

suc-pred : (n : ℕ) → suc n - 1 ≡ n
suc-pred n = omega arith

module _ {A : Type 0} (rank : A → ℕ) where
  -- The ranks do not fall from the first element to the last.
  abbrev pub IsSorted : List A → Type 0
  IsSorted a = (j k : ℕ) → j ≤ k → k < length a → key rank a j ≤ key rank a k

  -- The elements behind `i` are in their places, those up to `i` are a heap.
  record Drained (i : ℕ) (a : List A) : Type 0 where
    heap : IsHeapFrom rank 0 (suc i) a
    placed : (j k : ℕ) → j ≤ k → i < k → k < length a → key rank a j ≤ key rank a k

  root_most_below :
      (fuel n : ℕ) (a : List A) (i : ℕ)
      → IsHeapFrom rank 0 n a
      → i < fuel
      → i < n
      → key rank a i ≤ key rank a 0
  root_most_below zero n a i h f p = absurd (omega arith)
  root_most_below (suc fuel) n a i h f p =
      ground (arith, h i, root_most_below fuel n a (parent i) h)

  root_most :
      (n : ℕ) (a : List A) (i : ℕ) → IsHeapFrom rank 0 n a → i < n → key rank a i ≤ key rank a 0
  root_most n a i h p = root_most_below (suc i) n a i h (omega arith) p

  module _ (i : ℕ) (a : List A) (x y : A) (inside : suc i < length a) (ex : get_elem? a 0 ≡ some x)
      (ey : get_elem? a (suc i) ≡ some y) (d : Drained (suc i) a) where
    swapped : List A
    swapped = exchange a 0 (suc i) x y

    key-swapped :
        (c : ℕ)
        → key rank swapped c ≡ (
            if suc i == c
            then key rank a 0
            else if 0 == c
            then key rank a (suc i)
            else key rank a c)
    unfolding swapped rank_of
    key-swapped c =
        ap (rank_of rank) (get_elem?-exchange a 0 (suc i) x y ex ey c)
        ∙ ground (arith, ap (rank_of rank) ex, ap (rank_of rank) ey)

    swapped-SiftInv : SiftInv rank 0 (suc i) swapped 0
    swapped-SiftInv = record {
      edges = λ c p q r t. ground (arith, key-swapped c, key-swapped (parent c), d.heap c);
      bridged = λ c p q r t u. absurd (omega arith);
    }

    -- The largest of the heap is in its place, and what is before it is no larger than what follows.
    bound_of_place :
        (k p : ℕ) → i < k → k < length a → p < suc i → key rank swapped p ≤ key rank swapped k
    bound_of_place k p h l q = ground (
      arith,
      key-swapped k,
      key-swapped p,
      root_most (suc (suc i)) a p d.heap,
      root_most (suc (suc i)) a (suc i) d.heap,
      d.placed p k,
      d.placed (suc i) k,
    )

    Drained-next :
        (c : List A) → Sifted rank 0 (suc i) swapped c → length c ≡ length a → Drained i c
    Drained-next c s l = record {
      heap = s.heap;
      placed = λ j k jk ik kc.
          let kept_k : key rank c k ≡ key rank swapped k = ap (rank_of rank) (s.frame k ik) in
          let front : (j < suc i) → key rank c j ≤ key rank swapped k =
            λ p. s.bounds (key rank swapped k) (λ p q. bound_of_place k p ik (omega arith) q) j p in
          let back : (suc i ≤ j) → key rank c j ≡ key rank swapped j =
            λ p. ap (rank_of rank) (s.frame j p) in
          ground
            (arith, kept_k, front, back, key-swapped k, key-swapped j, d.placed j k, d.placed 0 k);
    }

-- `b` has the elements of `a`, and satisfies `P`.
abbrev pub Rearranged : {A : Type 0} → (List A → Type 0) → List A → List A → Type 0
Rearranged P a b = P b × Perm b a

module _ {A : Type 0} (client : Client A) (rank : A → ℕ) (law : IsLawful client rank) where
  build-heap :
      (i : ℕ) (a : List A)
      → IsHeapFrom rank i (length a) a
      → Returns
          (Rearranged (λ b. IsHeapFrom rank 0 (length a) b) a)
          (build client (length a * client.size) i a)
  unfolding build
  build-heap zero a h = returned (h, Perm.rfl)
  build-heap (suc i) a h =
      Returns-bind
        (siftdown-Sifted client rank law i a i (length a) (omega arith) (record {
          edges = λ c p q r t. h c p q (omega arith);
          bridged = λ c p q r t u. absurd (omega arith);
        }))
        λ b s.
          let same : length b ≡ length a = length-perm s.perm in
          Returns-weaken
            (subst
              (λ n.
                Returns (Rearranged (λ c. IsHeapFrom rank 0 n c) b)
                  (build client (n * client.size) i b))
              same (build-heap i b (rw same s.heap)))
            λ c t. (t.0, Perm.trans t.1 s.perm)

  -- The offset of the first element is 0.
  swap_at_first :
      (a : List A) (j : ℕ) {x y : A}
      → get_elem? a 0 ≡ some x
      → get_elem? a j ≡ some y
      → swap_at client a 0 (j * client.size) ≡ ok (exchange a 0 j x y)
  swap_at_first a j {x} {y} ex ey =
      subst (λ o. swap_at client a o (j * client.size) ≡ ok (exchange a 0 j x y))
        (zero-mul client.size) (swap_at-scaled law a 0 j ex ey)

  sift_first :
      (a : List A) (n : ℕ)
      → n ≤ length a
      → SiftInv rank 0 n a 0
      → Returns (Sifted rank 0 n a) (siftdown client a 0 (n * client.size))
  sift_first a n h v =
      subst (λ o. Returns (Sifted rank 0 n a) (siftdown client a o (n * client.size)))
        (zero-mul client.size) (siftdown-Sifted client rank law 0 a 0 n h v)

  drain-IsSorted :
      (i : ℕ) (a : List A)
      → i < length a
      → Drained rank i a
      → Returns (Rearranged (IsSorted rank) a) (drain client i a)
  unfolding drain swapped
  drain-IsSorted zero a h d = returned (λ j k jk kc. ground (arith, d.placed j k), Perm.rfl)
  drain-IsSorted (suc i) a h d =
      let (x, ex) = get_elem?-some a 0 (omega arith) in
      let (y, ey) = get_elem?-some a (suc i) h in
      let b = exchange a 0 (suc i) x y in
      let pb : Perm b a = exchange-perm a 0 (suc i) x y ex ey in
      rw (swap_at_first a (suc i) ex ey) (
        Returns-bind
          (sift_first b (suc i) (omega (arith, length-perm pb))
            (swapped-SiftInv rank i a x y h ex ey d))
          λ c s.
            let lc : length c ≡ length a = length-perm s.perm ∙ length-perm pb in
            Returns-weaken
              (drain-IsSorted i c (omega arith) (Drained-next rank i a x y h ex ey d c s lc))
              λ e t. (t.0, Perm.trans t.1 (Perm.trans s.perm pb)))

  drain_all :
      (n : ℕ) (b : List A)
      → length b ≡ n
      → IsHeapFrom rank 0 n b
      → Returns (Rearranged (IsSorted rank) b) (drain client (n - 1) b)
  unfolding drain
  drain_all zero b l h = returned (λ j k jk kc. absurd (omega arith), Perm.rfl)
  drain_all (suc n) b l h = rw (suc-pred n) (
      drain-IsSorted n b (omega arith)
        (record { heap = h; placed = λ j k jk nk kb. absurd (omega arith) }))

  -- For lawful callbacks heapsort() ends without an access outside the array and leaves the same elements in it, in the
  -- order of their ranks.
  pub heapsort_lem :
      (base : List A)
      → Returns (Rearranged (IsSorted rank) base) (heapsort client base (length base))
  unfolding heapsort
  heapsort_lem base = rw (mul_comm client.size (length base)) (
      Returns-bind (build-heap (length base / 2) base (λ c p q r. absurd (omega arith))) λ b s.
        Returns-weaken (drain_all (length base) b (length-perm s.1) s.0)
          λ c t. (t.0, Perm.trans t.1 s.1))
