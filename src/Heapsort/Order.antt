-- ===== src/Heapsort/Order.antt =====
-- The order of a heap whose largest element is at the top.
use mathlib.Core.List.{Perm}
use mathlib.Core.List.Perm
use xtf.Base.{
  ℕ, ◌+◌, ◌-◌, ◌*◌, ◌/◌, ◌<◌, ◌≤◌, ◌≡◌, ◌≢◌, ◌∙◌, ap, ◌⊎◌, ◌==◌, if◌then◌else◌, List, some,
  get_elem?, arith,
}
use xtf.Heapsort.Index.{rank_of}
use xtf.Heapsort.Array.{exchange, get_elem?-exchange, exchange-perm}

abbrev pub parent : ℕ → ℕ
parent c = (c - 1) / 2

module _ {A : Type 0} (rank : A → ℕ) where
  abbrev pub key : List A → ℕ → ℕ
  key a i = rank_of rank (get_elem? a i)

  -- In the first `n` elements every edge whose upper end is at `lo` or later is in order.
  abbrev pub IsHeapFrom : ℕ → ℕ → List A → Type 0
  IsHeapFrom lo n a = (c : ℕ) → 0 < c → c < n → lo ≤ parent c → key a c ≤ key a (parent c)

  -- what is above the first `n` elements
  abbrev pub IsBound : ℕ → List A → ℕ → Type 0
  IsBound n a m = (i : ℕ) → i < n → key a i ≤ m

  -- `b` is `a` with its first `n` elements in another order, a heap from `lo` on.
  pub record Sifted (lo n : ℕ) (a b : List A) : Type 0 where
    pub heap : IsHeapFrom lo n b
    pub perm : Perm b a
    pub frame : (j : ℕ) → n ≤ j → get_elem? b j ≡ get_elem? a j
    pub bounds : (m : ℕ) → IsBound n a m → IsBound n b m

  -- Only the edges below `i` may be out of order, and what is below these is in order with what is
  -- above them.
  pub record SiftInv (lo n : ℕ) (a : List A) (i : ℕ) : Type 0 where
    pub edges : (c : ℕ) → 0 < c → c < n → lo ≤ parent c → parent c ≢ i → key a c ≤ key a (parent c)
    pub bridged :
        (c : ℕ) → 0 < c → c < n → parent c ≡ i → 0 < i → lo ≤ parent i → key a c ≤ key a (parent i)

  -- `m` is the child of `i` with the higher rank.
  pub record IsLarger (a : List A) (i n m : ℕ) : Type 0 where
    pub inside : m < n
    pub child : (m ≡ 2 * i + 1) ⊎ (m ≡ 2 * i + 2)
    pub most : (c : ℕ) → 0 < c → c < n → parent c ≡ i → key a c ≤ key a m

  module _ (lo n : ℕ) (a : List A) (i m : ℕ) (x y : A) (ex : get_elem? a i ≡ some x)
      (ey : get_elem? a m ≡ some y) (larger : IsLarger a i n m) where
    key-exchange :
        (c : ℕ)
        → key (exchange a i m x y) c
          ≡ (if m == c then rank x else if i == c then rank y else key a c)
    unfolding rank_of
    key-exchange c = ap (rank_of rank) (get_elem?-exchange a i m x y ex ey c) ∙ ground arith

    key-upper : key a i ≡ rank x
    unfolding rank_of
    key-upper = ap (rank_of rank) ex

    key-lower : key a m ≡ rank y
    unfolding rank_of
    key-lower = ap (rank_of rank) ey

    -- An exchange with the larger child moves the gap down to that.
    pub exchange-SiftInv : SiftInv lo n a i → rank x < rank y → SiftInv lo n (exchange a i m x y) m
    exchange-SiftInv v below = record {
      edges = λ c p q r t. ground (
        arith,
        key-upper,
        key-lower,
        key-exchange c,
        key-exchange (parent c),
        v.edges c,
        v.bridged m,
        larger.most c,
      );
      bridged = λ c p q r t u.
          ground (arith, key-upper, key-lower, key-exchange c, key-exchange (parent m), v.edges c);
    }

    -- The exchange concerns the first `n` elements alone.
    pub Sifted-exchange : (b : List A) → Sifted lo n (exchange a i m x y) b → Sifted lo n a b
    Sifted-exchange b s = record {
      heap = s.heap;
      perm = Perm.trans s.perm (exchange-perm a i m x y ex ey);
      frame = λ j h. ground (arith, s.frame j, get_elem?-exchange a i m x y ex ey j);
      bounds = λ u h.
          s.bounds u (λ j k. ground (arith, key-upper, key-lower, key-exchange j, h j, h i, h m));
    }
