-- ===== src/Heapsort.antt =====
-- common/heapsort.c. A position is the offset in bytes from `base`; `long` arithmetic does not
-- overflow, for the array is in memory and twice its size is below 2^63.
pub mod Array
pub mod Index
pub mod Order
pub mod Sift
pub mod Sort
use xtf.Base.{
  ℕ, zero, suc, ◌+◌, ◌-◌, ◌*◌, ◌/◌, ◌%◌, Bool, true, false, not, ◌==◌, ltb, if◌then◌else◌, List, [],
  ◌∷◌, length, get_elem?, set, ◌≡◌, ◌<◌,
}
use xtf.Base.Int.{ℤ, pos, ltb_ℤ}
use xtf.Base.Run.{Run, ok, fault, out_of_fuel, or_fault, ◌>>=◌}

-- What a caller of heapsort() passes: `_size`, and the two functions. `swap` is given the contents of
-- two elements and returns what it leaves in them.
pub record Client (A : Type 0) : Type 0 where
  pub size : ℕ
  pub compar : A → A → ℤ
  pub swap : A → A → A × A

-- What they have to satisfy: an element has a positive size, `compar` is negative for a lower rank
-- and only then, and `swap` exchanges two elements.
pub record IsLawful {A : Type 0} (client : Client A) (rank : A → ℕ) : Type 0 where
  pub some_bytes : 0 < client.size
  pub compares : (x y : A) → ltb_ℤ (client.compar x y) (pos 0) ≡ ltb (rank x) (rank y)
  pub swaps : (x y : A) → client.swap x y ≡ (y, x)

module _ {A : Type 0} (client : Client A) where
  open client use {size, compar, swap}

  -- the element at an offset
  unfoldable pub load : List A → ℕ → Run A
  load a off = if off % size == 0 then or_fault (get_elem? a (off / size)) else fault

  -- `swap(base + i, base + j)`
  unfoldable pub swap_at : List A → ℕ → ℕ → Run (List A)
  swap_at a i j = do
    x ← load a i
    y ← load a j
    let xy = swap x y
    ok (set (set a (i / size) xy.0) (j / size) xy.1)

  -- `child`, behind the choice of the larger one
  unfoldable pub pick_child : List A → ℕ → ℕ → Run ℕ
  pick_child a child stop =
      let compared = do
        x ← load a child
        y ← load a (child + size)
        ok (if ltb_ℤ (compar x y) (pos 0) then child + size else child)
      in if ltb (child + size) stop then compared else ok child

  -- The `for` loop of siftdown() on fuel.
  unfoldable pub siftdown_loop : ℕ → List A → ℕ → ℕ → Run (List A)
  siftdown_loop zero a root stop = out_of_fuel
  siftdown_loop (suc fuel) a root stop =
      let round : Run (List A) = do
        child ← pick_child a (root * 2 + size) stop
        x ← load a root
        y ← load a child
        let next = do b ← swap_at a root child; siftdown_loop fuel b child stop
        if not (ltb_ℤ (compar x y) (pos 0)) then ok a else next
      in if ltb (root * 2 + size) stop then round else ok a

  -- The root moves up at least one element a round.
  unfoldable pub siftdown : List A → ℕ → ℕ → Run (List A)
  siftdown a start stop = siftdown_loop (length a + 1) a start stop

  -- The first loop of heapsort(), for the `idx` of `rounds` elements and those below.
  unfoldable pub build : ℕ → ℕ → List A → Run (List A)
  build total zero a = ok a
  build total (suc i) a = siftdown a (i * size) total >>= build total i

  -- The second loop, from the `idx` of element `i` down to that of 1.
  unfoldable pub drain : ℕ → List A → Run (List A)
  drain zero a = ok a
  drain (suc i) a = do b ← swap_at a 0 (suc i * size); c ← siftdown b 0 (suc i * size); drain i c

  -- `nmemb / 2 - 1` and `total - size` wrap to a negative `idx` where there is no round.
  unfoldable pub heapsort : List A → ℕ → Run (List A)
  heapsort base nmemb = build (size * nmemb) (nmemb / 2) base >>= drain (nmemb - 1)
