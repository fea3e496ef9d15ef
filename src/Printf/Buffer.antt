-- ===== src/Printf/Buffer.antt =====
-- What a text that is put out leaves in a buffer.
use xtf.Base.Index.{take_all}
use xtf.Base.{
  ℕ, zero, suc, ◌-◌, ◌≤◌, ◌<◌, leb, false, ◌≡◌, refl, ap, ltb, List, [], ◌∷◌, ◌++◌, length, set,
  take, arith, Bool-cases, inl, inr, append-nil, length-append, append_assoc, length-take, lt→ltb,
}
use xtf.Base.Int.{narrow}
use xtf.Base.Run.{ok}
use xtf.Printf.Out.{Out, store, put, emit}
use xtf.Printf.Format.{terminate, returned_by}

-- `mem` with the text in place of its first bytes
unfoldable pub overwrite : List ℕ → List ℕ → List ℕ
overwrite mem [] = mem
overwrite [] (c ∷ t) = []
overwrite (b ∷ mem) (c ∷ t) = c ∷ overwrite mem t

-- A buffer of `size` bytes holds the text and a NUL behind it, or as much of it as fits.
unfoldable pub terminated : List ℕ → ℕ → List ℕ → List ℕ
terminated mem zero t = mem
terminated mem (suc n) t = overwrite mem (take n t ++ 0 ∷ [])

overwrite-set :
    (mem t : List ℕ) (c : ℕ) → set (overwrite mem t) (length t) c ≡ overwrite mem (t ++ c ∷ [])
unfolding overwrite
overwrite-set [] [] c = refl
overwrite-set [] (d ∷ t) c = refl
overwrite-set (b ∷ mem) [] c = refl
overwrite-set (b ∷ mem) (d ∷ t) c = ap (◌∷◌ d) (overwrite-set mem t c)

-- a byte put over the last of a text
overwrite-set_last :
    (mem t : List ℕ) (n c : ℕ)
    → length t ≡ suc n
    → set (overwrite mem t) n c ≡ overwrite mem (take n t ++ c ∷ [])
unfolding overwrite
overwrite-set_last mem [] n c h = absurd (omega arith)
overwrite-set_last [] (d ∷ t) n c h = nothing n
  where
    nothing : (n : ℕ) → [] ≡ overwrite [] (take n (d ∷ t) ++ c ∷ [])
    nothing zero = refl
    nothing (suc n) = refl
overwrite-set_last (b ∷ mem) (d ∷ []) zero c h = refl
overwrite-set_last (b ∷ mem) (d ∷ e ∷ t) zero c h = absurd (omega arith)
overwrite-set_last (b ∷ mem) (d ∷ t) (suc n) c h =
    ap (◌∷◌ d) (overwrite-set_last mem t n c (omega arith))

take-append : (n : ℕ) (s t : List ℕ) → n ≤ length s → take n (s ++ t) ≡ take n s
take-append zero s t h = refl
take-append (suc n) [] t h = absurd (omega arith)
take-append (suc n) (c ∷ s) t h = ap (◌∷◌ c) (take-append n s t (omega arith))

take-take : (n : ℕ) (s : List ℕ) → take n (take (suc n) s) ≡ take n s
take-take zero s = refl
take-take (suc n) [] = refl
take-take (suc n) (c ∷ s) = ap (◌∷◌ c) (take-take n s)

pub length-overwrite : (mem t : List ℕ) → length (overwrite mem t) ≡ length mem
unfolding overwrite
length-overwrite mem [] = refl
length-overwrite [] (c ∷ t) = refl
length-overwrite (b ∷ mem) (c ∷ t) = ap suc (length-overwrite mem t)

-- the buffer behind the text `s`
abbrev pub after : List ℕ → ℕ → List ℕ → Out
after mem size s = record {
  mem = overwrite mem (take size s);
  str = length s;
  end = size;
  overrun = false;
}

-- a byte that is stored inside the memory
store-inside :
    (mem t : List ℕ) (i c str end : ℕ)
    → i < length mem
    → store i c (record { mem = overwrite mem t; str = str; end = end; overrun = false })
      ≡ record { mem = set (overwrite mem t) i c; str = str; end = end; overrun = false }
unfolding store
store-inside mem t i c str end h =
    let inside : leb (length (overwrite mem t)) i ≡ false =
      ground (arith, h, length-overwrite mem t) in
    rw inside refl

put-after :
    (mem s : List ℕ) (c size : ℕ)
    → size ≤ length mem
    → put c (after mem size s) ≡ after mem size (s ++ c ∷ [])
unfolding put
put-after mem s c size h = elim (Bool-cases (ltb (length s) size)) [
  | inl lt ↦
      let fits : length (s ++ c ∷ []) ≤ size = ground (arith, length-append s (c ∷ [])) in
      let room : length s < length mem = ground (arith, lt, h) in
      rw
        (
          lt,
          store-inside mem (take size s) (length s) c (length s) size room,
          take_all size s (ground arith),
          take_all size _ fits,
          overwrite-set mem s c,
          length-append s (c ∷ []),
        )
        refl
  | inr ge ↦ rw (ge, take-append size s (c ∷ []) (ground arith), length-append s (c ∷ [])) refl
]

emit-after :
    (mem s t : List ℕ) (size : ℕ)
    → size ≤ length mem
    → emit t (after mem size s) ≡ after mem size (s ++ t)
unfolding emit
emit-after mem s [] size h = rw append-nil
emit-after mem s (c ∷ t) size h =
    rw (put-after mem s c size h, emit-after mem (s ++ c ∷ []) t size h, append_assoc)

-- A text that is put out from the start of a buffer overwrites as much of it as fits; `str` counts
-- all of the text.
pub emit_lem :
    (mem t : List ℕ) (size : ℕ)
    → size ≤ length mem
    → emit t (record { mem = mem; str = 0; end = size; overrun = false }) ≡ after mem size t
unfolding overwrite
emit_lem mem t zero h = emit-after mem [] t zero h
emit_lem mem t (suc n) h = emit-after mem [] t (suc n) h

suc-pred : (n : ℕ) → suc n - 1 ≡ n
suc-pred n = omega arith

-- vsnprintf_internal() leaves the text and a NUL in the buffer, or as much of it as fits.
pub terminate_lem :
    (mem t : List ℕ) (size : ℕ)
    → size ≤ length mem
    → returned_by (length t) (terminate (after mem size t))
      ≡ ok (narrow (length t), terminated mem size t)
unfolding terminate terminated overwrite
terminate_lem mem t zero h =
    let none_below : ltb (length t) 0 ≡ false = ground arith in rw none_below refl
terminate_lem mem t (suc n) h = elim (Bool-cases (ltb (length t) (suc n))) [
  | inl lt ↦
      let room : length t < length mem = ground (arith, lt, h) in
      rw
        (
          lt,
          store-inside mem (take (suc n) t) (length t) 0 (length t) (suc n) room,
          take_all (suc n) t (ground arith),
          take_all n t (ground arith),
          overwrite-set mem t 0,
        )
        refl
  | inr ge ↦
      let last : length (take (suc n) t) ≡ suc n = ground (arith, length-take (suc n) t) in
      rw
        (
          ge,
          suc-pred n,
          lt→ltb 0 (suc n) (omega arith),
          store-inside mem (take (suc n) t) n 0 (length t) (suc n) (omega (arith, h)),
          overwrite-set_last mem (take (suc n) t) n 0 last,
          take-take n t,
        )
        refl
]
