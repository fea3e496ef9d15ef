-- ===== src/Heapsort/Index.antt =====
-- The functions of common/heapsort.c at the offsets of elements.
use native.Mathlib.Nat.{mul-div_cancel, mul-mod_left, mul-lt-mul_of_pos_right, mul-le-mul_right}
use xtf.Base.{
  ℕ, ◌*◌, ◌<◌, ◌≡◌, ltb, List, Option, some, none, get_elem?, arith, Bool-cases, lt→ltb, ltb→lt,
  inl, inr,
}
use xtf.Base.Run.{ok}
use xtf.Heapsort.{Client, IsLawful, load, swap_at}
use xtf.Heapsort.Array.{exchange}

unfoldable pub rank_of : {A : Type 0} → (A → ℕ) → Option A → ℕ
rank_of rank none = 0
rank_of rank (some x) = rank x

pub scaled_lt : (m n s : ℕ) → 0 < s → ltb (m * s) (n * s) ≡ ltb m n
scaled_lt m n s h = elim (Bool-cases (ltb m n)) [
  | inl lt ↦ rw lt (lt→ltb (m * s) (n * s) (mul-lt-mul_of_pos_right (ltb→lt m n lt) h))
  | inr ge ↦ rw ge (ground (arith, mul-le-mul_right {m = n} {n = m} s (ground arith)))
]

module _ {A : Type 0} {client : Client A} {rank : A → ℕ} (law : IsLawful client rank) where
  pub load-scaled :
      (a : List A) (i : ℕ) {x : A} → get_elem? a i ≡ some x → load client a (i * client.size) ≡ ok x
  unfolding load
  load-scaled a i e = rw (mul-mod_left, mul-div_cancel i law.some_bytes, e)

  pub swap_at-scaled :
      (a : List A) (i j : ℕ) {x y : A}
      → get_elem? a i ≡ some x
      → get_elem? a j ≡ some y
      → swap_at client a (i * client.size) (j * client.size) ≡ ok (exchange a i j x y)
  unfolding swap_at exchange
  swap_at-scaled a i j {x} {y} ex ey = rw (
    load-scaled a i ex,
    load-scaled a j ey,
    law.swaps x y,
    mul-div_cancel i law.some_bytes,
    mul-div_cancel j law.some_bytes,
  )
