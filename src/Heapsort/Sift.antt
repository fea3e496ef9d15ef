-- ===== src/Heapsort/Sift.antt =====
-- siftdown() of common/heapsort.c.
use mathlib.Core.List.Perm
use xtf.Base.{
  ℕ, zero, suc, ◌+◌, ◌-◌, ◌*◌, ◌<◌, ◌≤◌, ◌≡◌, refl, ap, ap₂, Bool, true, false, not, ltb,
  if◌then◌else◌, List, some, length, get_elem?, arith, inl, inr,
}
use xtf.Base.Run.{ok, Returns, returned, Returns-bind, Returns-split, Returns-weaken}
use xtf.Heapsort.{Client, IsLawful, pick_child, siftdown_loop, siftdown}
use xtf.Heapsort.Array.{exchange, get_elem?-some, length-exchange}
use xtf.Heapsort.Index.{rank_of, scaled_lt, load-scaled, swap_at-scaled}
use xtf.Heapsort.Order.{parent, key, Sifted, SiftInv, IsLarger, exchange-SiftInv, Sifted-exchange}

left_offset : (i s : ℕ) → i * s * 2 + s ≡ (2 * i + 1) * s
left_offset i s = omega arith

right_offset : (i s : ℕ) → (2 * i + 1) * s + s ≡ (2 * i + 2) * s
right_offset i s = omega arith

in_order :
    {A : Type 0} {rank : A → ℕ} (a : List A) (i n m : ℕ) (x y : A)
    → get_elem? a i ≡ some x
    → get_elem? a m ≡ some y
    → IsLarger rank a i n m
    → not (ltb (rank x) (rank y)) ≡ true
    → (c : ℕ) → 0 < c
    → c < n
    → parent c ≡ i
    → key rank a c ≤ key rank a i
unfolding rank_of
in_order {rank = rank} a i n m x y ex ey larger stop c p q r =
    let kx : key rank a i ≡ rank x = ap (rank_of rank) ex in
    let ky : key rank a m ≡ rank y = ap (rank_of rank) ey in
    ground (arith, larger.most c p q r, kx, ky)

module _ {A : Type 0} (client : Client A) (rank : A → ℕ) (law : IsLawful client rank) where
  abbrev Picked : List A → ℕ → ℕ → ℕ → Type 0
  Picked a i n off = (m : ℕ) × (off ≡ m * client.size) × IsLarger rank a i n m

  two_children-IsLarger :
      (a : List A) (i n : ℕ) (b : Bool)
      → 2 * i + 2 < n
      → ltb (key rank a (2 * i + 1)) (key rank a (2 * i + 2)) ≡ b
      → IsLarger rank a i n (if b then 2 * i + 2 else 2 * i + 1)
  two_children-IsLarger a i n true h e = record {
    inside = h;
    child = inr refl;
    most = λ c p q r. ground arith;
  }
  two_children-IsLarger a i n false h e = record {
    inside = omega arith;
    child = inl refl;
    most = λ c p q r. ground arith;
  }

  picked :
      (a : List A) (i n : ℕ) (b : Bool)
      → 2 * i + 2 < n
      → ltb (key rank a (2 * i + 1)) (key rank a (2 * i + 2)) ≡ b
      → Returns
          (Picked a i n)
          (ok (if b then (2 * i + 2) * client.size else (2 * i + 1) * client.size))
  picked a i n true h e = returned (2 * i + 2, refl, two_children-IsLarger a i n true h e)
  picked a i n false h e = returned (2 * i + 1, refl, two_children-IsLarger a i n false h e)

  only_child :
      (a : List A) (i n : ℕ)
      → 2 * i + 1 < n
      → ltb (2 * i + 2) n ≡ false
      → IsLarger rank a i n (2 * i + 1)
  only_child a i n h e = record { inside = h; child = inl refl; most = λ c p q r. ground arith }

  pick_child-Picked :
      (a : List A) (i n : ℕ)
      → n ≤ length a
      → 2 * i + 1 < n
      → Returns (Picked a i n) (pick_child client a ((2 * i + 1) * client.size) (n * client.size))
  unfolding pick_child rank_of
  pick_child-Picked a i n hn h =
      rw (right_offset i client.size, scaled_lt (2 * i + 2) n client.size law.some_bytes)
        (Returns-split (ltb (2 * i + 2) n)
          (λ e.
            let (x, ex) = get_elem?-some a (2 * i + 1) (omega arith) in
            let (y, ey) = get_elem?-some a (2 * i + 2) (ground arith) in
            rw
              (load-scaled law a (2 * i + 1) ex, load-scaled law a (2 * i + 2) ey, law.compares x y)
              (picked a i n (ltb (rank x) (rank y)) (ground arith)
                (ap₂ ltb (ap (rank_of rank) ex) (ap (rank_of rank) ey))))
          (λ e. returned (2 * i + 1, refl, only_child a i n h e)))

  settled :
      (lo : ℕ) (a : List A) (i n : ℕ)
      → SiftInv rank lo n a i
      → ((c : ℕ) → 0 < c → c < n → parent c ≡ i → key rank a c ≤ key rank a i)
      → Sifted rank lo n a a
  settled lo a i n v below = record {
    heap = λ c p q r. ground (arith, v.edges c, below c);
    perm = Perm.rfl;
    frame = λ j h. refl;
    bounds = λ m h. h;
  }

  siftdown_loop-Sifted :
      (fuel lo : ℕ) (a : List A) (i n : ℕ)
      → n ≤ length a
      → n - i < fuel
      → SiftInv rank lo n a i
      → Returns
          (Sifted rank lo n a)
          (siftdown_loop client fuel a (i * client.size) (n * client.size))
  unfolding siftdown_loop
  siftdown_loop-Sifted zero lo a i n hn f v = absurd (omega arith)
  siftdown_loop-Sifted (suc fuel) lo a i n hn f v =
      rw (left_offset i client.size, scaled_lt (2 * i + 1) n client.size law.some_bytes)
        (Returns-split (ltb (2 * i + 1) n)
          (λ e. Returns-bind (pick_child-Picked a i n hn (ground arith)) λ off (m, at, larger).
            let (x, ex) = get_elem?-some a i (ground arith) in
            let (y, ey) = get_elem?-some a m (omega (arith, larger.inside)) in
            let b = exchange a i m x y in
            rw (at, load-scaled law a i ex, load-scaled law a m ey, law.compares x y)
              (Returns-split (not (ltb (rank x) (rank y)))
                (λ stop. returned (settled lo a i n v (in_order a i n m x y ex ey larger stop)))
                (λ sink. rw (swap_at-scaled law a i m ex ey) (
                  Returns-weaken
                    (siftdown_loop-Sifted fuel lo b m n (rw length-exchange hn)
                      (omega (arith, larger.child, larger.inside))
                      (exchange-SiftInv rank lo n a i m x y ex ey larger v (ground arith)))
                    (Sifted-exchange rank lo n a i m x y ex ey larger)))))
          (λ e. returned (settled lo a i n v (λ c p q r. absurd (ground arith)))))

  -- For lawful callbacks siftdown() makes a heap of the elements from `i` to `n`, if those behind `i` are one, moves no
  -- other and loses none.
  pub siftdown-Sifted :
      (lo : ℕ) (a : List A) (i n : ℕ)
      → n ≤ length a
      → SiftInv rank lo n a i
      → Returns (Sifted rank lo n a) (siftdown client a (i * client.size) (n * client.size))
  unfolding siftdown
  siftdown-Sifted lo a i n hn v = siftdown_loop-Sifted (length a + 1) lo a i n hn (omega arith) v
