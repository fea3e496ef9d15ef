-- ===== src/Xenbus/Ring.antt =====
-- One direction of the page as a queue.
use xtf.Base.{
  ℕ, zero, suc, ◌+◌, ◌-◌, ◌%◌, ◌^◌, ◌<◌, ◌≤◌, ◌≡◌, refl, ap, ◌∙◌, sym, ltb, true, false, List, [],
  ◌∷◌, ◌++◌, length, take, drop, replicate, get_elem?, length-append, length-take, length-drop,
  length-replicate, append-nil, arith, Bool-cases, inl, inr,
}
use xtf.Base.Index.{get_elem?-append, get_elem?-take, get_elem?-drop, by_elements}
use xtf.Base.Run.{ok}
use xtf.CString.Copy.{memcpy_lem}
use xtf.Xenbus.{difference, copy_in, copy_out}

-- The ring holds the bytes `queue`, which are written and not yet consumed.
pub record Holds (ring : List ℕ) (cons prod : ℕ) (queue : List ℕ) : Type 0 where
  pub size : length ring ≡ 1024
  pub index : cons < 2 ^ 32
  pub produced : prod ≡ (cons + length queue) % 2 ^ 32
  pub fits : length queue ≤ 1024
  pub bytes : (i : ℕ) → i < length queue → get_elem? ring ((cons + i) % 1024) ≡ get_elem? queue i

pub difference-Holds :
    (ring : List ℕ) (cons prod : ℕ) (queue : List ℕ)
    → Holds ring cons prod queue
    → difference prod cons ≡ length queue
difference-Holds ring cons prod queue v = omega (arith, v.index, v.produced, v.fits)

-- bytes put over a part of the ring
abbrev pub splice : List ℕ → ℕ → List ℕ → List ℕ
splice ring at chunk = take at ring ++ (chunk ++ drop (length chunk) (drop at ring))

module _ (ring : List ℕ) (at : ℕ) (chunk : List ℕ) (room : at + length chunk ≤ length ring) where
  start_length : length (take at ring) ≡ at
  start_length = omega (arith, length-take at ring, room)

  length-splice : length (splice ring at chunk) ≡ length ring
  length-splice = omega (
    arith,
    start_length,
    length-append (take at ring) (chunk ++ drop (length chunk) (drop at ring)),
    length-append chunk (drop (length chunk) (drop at ring)),
    length-drop (length chunk) (drop at ring),
    length-drop at ring,
    room,
  )

  splice_inside :
      (j : ℕ)
      → at ≤ j
      → j < at + length chunk
      → get_elem? (splice ring at chunk) j ≡ get_elem? chunk (j - at)
  splice_inside j h k =
      let outer = get_elem?-append (take at ring) (chunk ++ drop (length chunk) (drop at ring)) j in
      let inner = get_elem?-append chunk (drop (length chunk) (drop at ring)) (j - at) in
      let a : ltb j (length (take at ring)) ≡ false = ground (arith, start_length) in
      let b : ltb (j - at) (length chunk) ≡ true = ground arith in
      outer ∙ rw (a, start_length) refl ∙ inner ∙ rw b refl

  splice_before : (j : ℕ) → j < at → get_elem? (splice ring at chunk) j ≡ get_elem? ring j
  splice_before j h =
      let outer = get_elem?-append (take at ring) (chunk ++ drop (length chunk) (drop at ring)) j in
      let a : ltb j (length (take at ring)) ≡ true = ground (arith, start_length) in
      outer ∙ rw a (get_elem?-take at ring j h)

  splice_behind :
      (j : ℕ) → at + length chunk ≤ j → get_elem? (splice ring at chunk) j ≡ get_elem? ring j
  splice_behind j h =
      let outer = get_elem?-append (take at ring) (chunk ++ drop (length chunk) (drop at ring)) j in
      let inner = get_elem?-append chunk (drop (length chunk) (drop at ring)) (j - at) in
      let a : ltb j (length (take at ring)) ≡ false = ground (arith, start_length) in
      let b : ltb (j - at) (length chunk) ≡ false = ground arith in
      let c : at + (length chunk + (j - at - length chunk)) ≡ j = omega arith in
      outer
      ∙ rw (a, start_length) refl
      ∙ inner
      ∙ rw b refl
      ∙ get_elem?-drop (length chunk) (drop at ring) (j - at - length chunk)
      ∙ get_elem?-drop at ring (length chunk + (j - at - length chunk))
      ∙ ap (get_elem? ring) c

-- Bytes that fit in front of the end of the ring are put behind the queue.
pub splice-Holds :
    (ring : List ℕ) (cons prod : ℕ) (queue chunk : List ℕ)
    → Holds ring cons prod queue
    → length queue + length chunk ≤ 1024
    → prod % 1024 + length chunk ≤ 1024
    → Holds (splice ring (prod % 1024) chunk) cons ((prod + length chunk) % 2 ^ 32) (queue ++ chunk)
splice-Holds ring cons prod queue chunk v room here =
    let at = prod % 1024 in
    let l = length-append queue chunk in
    let in_ring : at + length chunk ≤ length ring = omega (arith, v.size) in
    record {
      size = length-splice ring at chunk in_ring ∙ v.size;
      index = v.index;
      produced = omega (arith, l, v.produced, v.index);
      fits = omega (arith, l);
      bytes = λ i h. elim (Bool-cases (ltb i (length queue))) [
        | inl old ↦
            get_old i (ground arith)
            ∙ v.bytes i (ground arith)
            ∙ sym (get_elem?-append queue chunk i ∙ rw old refl)
        | inr new ↦
            let j = (cons + i) % 1024 in
            let e : j ≡ at + (i - length queue) = ground (arith, v.produced, v.index, l) in
            let e2 : j - at ≡ i - length queue = omega (arith, e) in
            splice_inside ring at chunk in_ring j (omega (arith, e)) (ground (arith, e, l))
            ∙ ap (get_elem? chunk) e2
            ∙ sym (get_elem?-append queue chunk i ∙ rw new refl)
      ];
    }
  where
    get_old :
        (i : ℕ)
        → i < length queue
        → get_elem? (splice ring (prod % 1024) chunk) ((cons + i) % 1024)
          ≡ get_elem? ring ((cons + i) % 1024)
    get_old i h =
        let in_ring : prod % 1024 + length chunk ≤ length ring = omega (arith, v.size) in
        elim (Bool-cases (ltb ((cons + i) % 1024) (prod % 1024))) [
          | inl low ↦
              splice_before ring (prod % 1024) chunk in_ring ((cons + i) % 1024) (ground arith)
          | inr high ↦
              splice_behind ring (prod % 1024) chunk in_ring ((cons + i) % 1024)
                (ground (arith, v.produced, v.index))
        ]

pub copy_in_lem :
    (ring bytes : List ℕ) (at part : ℕ)
    → part ≤ length bytes
    → at + part ≤ length ring
    → copy_in ring at bytes part ≡ ok (splice ring at (take part bytes))
unfolding copy_in
copy_in_lem ring bytes at part h k =
    let n : length (take part bytes) ≡ part = omega (arith, length-take part bytes) in
    rw (memcpy_lem (drop at ring) bytes part (omega (arith, length-drop at ring)) h, n) refl

drop_all : (n : ℕ) (s : List ℕ) → length s ≡ n → drop n s ≡ []
drop_all zero [] e = refl
drop_all zero (c ∷ s) e = absurd (omega (arith, e))
drop_all (suc n) [] e = refl
drop_all (suc n) (c ∷ s) e = drop_all n s (omega (arith, e))

pub copy_out_lem :
    (ring : List ℕ) (at part : ℕ)
    → at + part ≤ length ring
    → copy_out ring at part ≡ ok (take part (drop at ring))
unfolding copy_out
copy_out_lem ring at part h =
    let full : length {A = ℕ} (replicate part 0) ≡ part = length-replicate part 0 in
    memcpy_lem (replicate part 0) (drop at ring) part (omega (arith, full))
      (omega (arith, length-drop at ring))
    ∙ ap ok (
        ap (λ t. take part (drop at ring) ++ t) (drop_all part (replicate part 0) full)
        ∙ append-nil _)

-- The bytes from the consumer's index on are the first of the queue.
pub front-Holds :
    (ring : List ℕ) (cons prod : ℕ) (queue : List ℕ) (part : ℕ)
    → Holds ring cons prod queue
    → part ≤ length queue
    → cons % 1024 + part ≤ 1024
    → take part (drop (cons % 1024) ring) ≡ take part queue
front-Holds ring cons prod queue part v h k =
    let a = length-take part (drop (cons % 1024) ring) in
    let b = length-drop (cons % 1024) ring in
    let c = length-take part queue in
    by_elements (take part (drop (cons % 1024) ring)) (take part queue)
      (omega (arith, a, b, c, v.size))
      λ i lt.
        let e : cons % 1024 + i ≡ (cons + i) % 1024 = omega (arith, a, b, v.size) in
        get_elem?-take part (drop (cons % 1024) ring) i (omega (arith, a))
        ∙ get_elem?-drop (cons % 1024) ring i
        ∙ ap (get_elem? ring) e
        ∙ v.bytes i (omega (arith, a))
        ∙ sym (get_elem?-take part queue i (omega (arith, a)))

-- Bytes that are consumed are no longer in the queue.
pub consume-Holds :
    (ring : List ℕ) (cons prod : ℕ) (queue : List ℕ) (part : ℕ)
    → Holds ring cons prod queue
    → part ≤ length queue
    → Holds ring ((cons + part) % 2 ^ 32) prod (drop part queue)
consume-Holds ring cons prod queue part v h =
    let l = length-drop part queue in
    record {
      size = v.size;
      index = omega arith;
      produced = omega (arith, l, v.produced, v.index);
      fits = omega (arith, l, v.fits);
      bytes = λ i lt.
          let e : ((cons + part) % 2 ^ 32 + i) % 1024 ≡ (cons + (part + i)) % 1024 = omega arith in
          ap (get_elem? ring) e
          ∙ v.bytes (part + i) (omega (arith, l))
          ∙ sym (get_elem?-drop part queue i);
    }
