-- ===== src/Console/Input.antt =====
-- The ring of the PV console's input as a queue.
use xtf.Base.{
  ℕ, zero, suc, ◌+◌, ◌%◌, ◌^◌, ◌<◌, ◌≤◌, ◌≡◌, refl, ap, ◌∙◌, ltb, Bool, true, List, [], ◌∷◌, some,
  length, take, drop, get_elem?, arith,
}
use xtf.Base.Run.{ok}
use xtf.Console.{InRing, used, consume, read_loop, then_read, wait_for_input, pv_console_read_some}

-- The ring holds the bytes `queue`, which Xen has written and the domain has not yet read.
pub record Holds (ring : InRing) (queue : List ℕ) : Type 0 where
  pub size : length ring.input ≡ 1024
  pub index : ring.in_cons < 2 ^ 32
  pub produced : ring.in_prod ≡ (ring.in_cons + length queue) % 2 ^ 32
  pub fits : length queue ≤ 1024
  pub bytes :
      (i : ℕ)
      → i < length queue
      → get_elem? ring.input ((ring.in_cons + i) % 1024) ≡ get_elem? queue i

used-Holds :
    (ring : InRing) (queue : List ℕ)
    → Holds ring queue
    → used ring.in_prod ring.in_cons ≡ length queue
used-Holds ring queue v = omega (arith, v.index, v.produced, v.fits)

consume-Holds :
    (c : ℕ) (ring : InRing) (queue : List ℕ) → Holds ring (c ∷ queue) → Holds (consume ring) queue
consume-Holds c ring queue v = record {
  size = v.size;
  index = omega arith;
  produced = omega (arith, v.produced, v.index);
  fits = omega (arith, v.fits);
  bytes = λ i h. ap (get_elem? ring.input) (omega (arith, v.index)) ∙ v.bytes (suc i) (omega arith);
}

first_byte :
    (c : ℕ) (ring : InRing) (queue : List ℕ)
    → Holds ring (c ∷ queue)
    → get_elem? ring.input (ring.in_cons % 1024) ≡ some c
first_byte c ring queue v = ap (get_elem? ring.input) (omega arith) ∙ v.bytes 0 (omega arith)

some_left : (n : ℕ) → ltb 0 (suc n) ≡ true
some_left n = ground arith

read_loop_lem :
    (len : ℕ) (ring : InRing) (queue : List ℕ)
    → Holds ring queue
    → (left : InRing) × (read_loop len ring ≡ ok (take len queue, left))
      × Holds left (drop len queue)
unfolding read_loop
read_loop_lem zero ring queue v = (ring, refl, v)
read_loop_lem (suc len) ring [] v = (ring, rw (used-Holds ring [] v) refl, v)
read_loop_lem (suc len) ring (c ∷ queue) v =
    let (left, e, w) = read_loop_lem len (consume ring) queue (consume-Holds c ring queue v) in
    (
      left,
      rw (used-Holds ring (c ∷ queue) v, some_left (length queue), first_byte c ring queue v, e)
          refl,
      w,
    )

-- Once the waiting loop has ended with a ring that holds a queue, pv_console_read_some() reads the
-- first bytes of the queue, as many as there are and `buf` has room for, without an access outside the
-- ring, which then holds the others.
pub pv_console_read_some_lem :
    (len : ℕ) (seen : List (Bool × InRing)) (ring : InRing) (queue : List ℕ)
    → wait_for_input seen ≡ some ring
    → Holds ring queue
    → (left : InRing) × (pv_console_read_some len seen ≡ some (ok (take len queue, left)))
      × Holds left (drop len queue)
unfolding pv_console_read_some
pv_console_read_some_lem len seen ring queue e v =
    let (left, r, w) = read_loop_lem len ring queue v in (left, ap (then_read len) e ∙ ap some r, w)
