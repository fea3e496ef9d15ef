-- ===== src/Tests/Consoled.antt =====
-- pv_console_write() with a console daemon.
use mathlib.Core.Path.{subst}
use mathlib.Core.Option.{some-injective}
use xtf.Base.{
  ℕ, zero, suc, ◌+◌, ◌%◌, ◌^◌, ◌<◌, ◌≡◌, ◌≢◌, ap, ◌∙◌, sym, ◌==◌, if◌then◌else◌, false, List, [],
  ◌∷◌, ◌++◌, some, get_elem?, get_or, replicate, length-replicate, append-nil, arith,
}
use xtf.Base.Run.{ok, Returns}
use xtf.Console.{OutRing, used, pv_console_write}
use xtf.Console.Queue.{IsQueue}
use xtf.Console.Write.{IsConsole, pv_console_write-delivers, pv_console_write-never}

-- A console daemon that takes one byte a run.
abbrev take_one : OutRing × List ℕ → OutRing × List ℕ
take_one (ring, d) = if used ring.out_prod ring.out_cons == 0 then (ring, d) else (
  record ring { out_cons = (ring.out_cons + 1) % 2 ^ 32 },
  d ++ get_or ring.out (ring.out_cons % 2048) 0 ∷ [],
)

get_or-get_elem? : (s : List ℕ) (i d c : ℕ) → get_elem? s i ≡ some c → get_or s i d ≡ c
get_or-get_elem? [] i d c e = absurd (cc)
get_or-get_elem? (x ∷ s) zero d c e = some-injective x c e
get_or-get_elem? (x ∷ s) (suc i) d c e = get_or-get_elem? s i d c e

take_one-IsConsole : IsConsole (λ d. d) take_one
take_one-IsConsole ring d [] v =
    let e : used ring.out_prod ring.out_cons ≡ 0 = omega (arith, v.index, v.produced) in
    rw e
      (record { k = 0; within = omega arith; left = v; took = sym (append-nil d); moves = λ h. h })
take_one-IsConsole ring d (c ∷ queue) v =
    let e : (used ring.out_prod ring.out_cons == 0) ≡ false =
      ground (arith, v.index, v.produced, v.fits) in
    let at0 : (ring.out_cons + 0) % 2048 ≡ ring.out_cons % 2048 = omega arith in
    let first : get_or ring.out (ring.out_cons % 2048) 0 ≡ c =
      get_or-get_elem? ring.out (ring.out_cons % 2048) 0 c
        (ap (get_elem? ring.out) (sym at0) ∙ v.holds 0 (omega arith)) in
    rw e (record {
      k = 1;
      within = omega arith;
      left = record {
        size = v.size;
        index = omega arith;
        produced = omega (arith, v.produced, v.index);
        fits = omega (arith, v.fits);
        holds = λ i h.
            let f : ((ring.out_cons + 1) % 2 ^ 32 + i) % 2048 ≡ (ring.out_cons + suc i) % 2048 =
              omega arith in
            ap (get_elem? ring.out) f ∙ v.holds (suc i) (omega arith);
      };
      took = ap (λ (x : ℕ). d ++ x ∷ []) first;
      moves = λ h. omega arith;
    })

abbrev idle : OutRing
idle = record { out = replicate 2048 0; out_cons = 4294967295; out_prod = 4294967295 }

idle-IsQueue : IsQueue idle []
idle-IsQueue = record {
  size = length-replicate {A = ℕ} 2048 0;
  index = omega arith;
  produced = omega arith;
  fits = omega arith;
  holds = λ i h. absurd (omega arith);
}

pv_console_write-delivers_example :
    Returns
      (λ (t : OutRing × List ℕ). IsQueue t.0 [] × (t.1 ≡ b'>' ∷ b'o' ∷ b'k' ∷ []))
      (pv_console_write take_one 3 (b'o' ∷ b'k' ∷ []) (idle, b'>' ∷ []))
pv_console_write-delivers_example =
    pv_console_write-delivers (λ d. d) take_one take_one-IsConsole 3 (b'o' ∷ b'k' ∷ []) [] idle
      (b'>' ∷ []) idle-IsQueue (omega arith) (omega arith)

abbrev flood : List ℕ
flood = replicate 2049 b'x'

pv_console_write-never_example : pv_console_write take_one 10000 flood (idle, []) ≢ ok (idle, flood)
pv_console_write-never_example =
    pv_console_write-never (λ d. d) take_one take_one-IsConsole 10000 flood [] idle [] (idle, flood)
      idle-IsQueue (subst (λ k. 2048 < k) (sym (length-replicate {A = ℕ} 2049 b'x')) (omega arith))
