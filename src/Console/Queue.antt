-- ===== src/Console/Queue.antt =====
-- The ring of the PV console as a queue.
use xtf.Base.{
  ℕ, zero, suc, ◌+◌, ◌-◌, ◌%◌, ◌^◌, ◌<◌, ◌≤◌, ◌≡◌, refl, ap, ◌∙◌, sym, ◌==◌, min, ltb,
  if◌then◌else◌, true, false, List, [], ◌∷◌, ◌++◌, some, length, set, take, get_elem?, length-set,
  length-append, append_assoc, append-nil, arith, Bool-cases, inl, inr,
}
use xtf.Heapsort.Array.{get_elem?-set}
use xtf.Console.{OutRing, used, put_byte, write_loop, pv_console_write_some}

-- The ring holds the bytes `queue`, which are written and not yet consumed.
pub record IsQueue (ring : OutRing) (queue : List ℕ) : Type 0 where
  pub size : length ring.out ≡ 2048
  pub index : ring.out_cons < 2 ^ 32
  pub produced : ring.out_prod ≡ (ring.out_cons + length queue) % 2 ^ 32
  pub fits : length queue ≤ 2048
  pub holds :
      (i : ℕ)
      → i < length queue
      → get_elem? ring.out ((ring.out_cons + i) % 2048) ≡ get_elem? queue i

get_elem?-append_left : (s t : List ℕ) (i : ℕ) → i < length s → get_elem? (s ++ t) i ≡ get_elem? s i
get_elem?-append_left [] t i h = absurd (omega arith)
get_elem?-append_left (c ∷ s) t zero h = refl
get_elem?-append_left (c ∷ s) t (suc i) h = get_elem?-append_left s t i (omega arith)

get_elem?-append_here : (s t : List ℕ) (c : ℕ) → get_elem? (s ++ c ∷ t) (length s) ≡ some c
get_elem?-append_here [] t c = refl
get_elem?-append_here (d ∷ s) t c = get_elem?-append_here s t c

used-IsQueue :
    (ring : OutRing) (queue : List ℕ)
    → IsQueue ring queue
    → used ring.out_prod ring.out_cons ≡ length queue
used-IsQueue ring queue v = omega (arith, v.index, v.produced, v.fits)

put_byte-IsQueue :
    (c : ℕ) (ring : OutRing) (queue : List ℕ)
    → IsQueue ring queue
    → length queue < 2048
    → IsQueue (put_byte c ring) (queue ++ c ∷ [])
unfolding put_byte
put_byte-IsQueue c ring queue v room =
    let at = ring.out_prod % 2048 in
    let l : length (queue ++ c ∷ []) ≡ length queue + 1 = length-append queue (c ∷ []) in
    let looked : (j : ℕ)
        → get_elem? (set ring.out at c) j ≡ (if at == j then some c else get_elem? ring.out j) =
      λ j. get_elem?-set ring.out at j c (omega (arith, v.size)) in
    record {
      size = length-set ring.out at c ∙ v.size;
      index = v.index;
      produced = omega (arith, l, v.produced, v.index);
      fits = omega (arith, l);
      holds = λ i h. elim (Bool-cases (ltb i (length queue))) [
        | inl old ↦
            looked ((ring.out_cons + i) % 2048)
            ∙ ground (arith, v.produced, v.index, v.fits)
            ∙ v.holds i (ground arith)
            ∙ sym (get_elem?-append_left queue (c ∷ []) i (ground arith))
        | inr new ↦
            let e : i ≡ length queue = ground (arith, l) in
            let here : (at == (ring.out_cons + i) % 2048) ≡ true =
              ground (arith, e, v.produced, v.index) in
            looked ((ring.out_cons + i) % 2048)
            ∙ rw here refl
            ∙ sym (get_elem?-append_here queue [] c)
            ∙ ap (get_elem? (queue ++ c ∷ [])) (sym e)
      ];
    }

take_nil : (n : ℕ) → take {A = ℕ} n [] ≡ []
take_nil zero = refl
take_nil (suc n) = refl

full : (n m : ℕ) → ltb n 2048 ≡ false → n ≤ 2048 → min m (2048 - n) ≡ 0
full n m h k = ground arith

-- Into a ring that holds a queue pv_console_write_some() writes as much of the buffer as there is room
-- for and returns how much that is; the ring then holds the queue with these bytes behind it, so that
-- nothing that is not yet consumed is overwritten.
pub pv_console_write_some_lem :
    (buf : List ℕ) (ring : OutRing) (queue : List ℕ)
    → IsQueue ring queue
    → ((pv_console_write_some buf ring).0 ≡ min (length buf) (2048 - length queue))
      × IsQueue
          (pv_console_write_some buf ring).1
          (queue ++ take (min (length buf) (2048 - length queue)) buf)
unfolding pv_console_write_some write_loop
pv_console_write_some_lem [] ring queue v = (omega arith, rw (take_nil, append-nil) v)
pv_console_write_some_lem (c ∷ buf) ring queue v = elim (Bool-cases (ltb (length queue) 2048)) [
  | inl room ↦
      let l : length (queue ++ c ∷ []) ≡ length queue + 1 = length-append queue (c ∷ []) in
      let (s, w) =
        pv_console_write_some_lem buf (put_byte c ring) (queue ++ c ∷ [])
          (put_byte-IsQueue c ring queue v (ground arith)) in
      let n : min (suc (length buf)) (2048 - length queue)
          ≡ suc (min (length buf) (2048 - length (queue ++ c ∷ []))) =
        ground (arith, l) in
      rw (used-IsQueue ring queue v, room, n) (omega (arith, s), rw append_assoc at w)
  | inr none_left ↦
      rw
        (
          used-IsQueue ring queue v,
          none_left,
          full (length queue) (suc (length buf)) none_left v.fits,
        )
        (refl, rw append-nil v)
]
