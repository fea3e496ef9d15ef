-- ===== src/Console/Write.antt =====
-- pv_console_write() against xenconsoled.
use mathlib.Core.Path.{subst}
use xtf.Base.{
  ℕ, zero, suc, ◌+◌, ◌-◌, ◌<◌, ◌≤◌, ◌≡◌, ◌≢◌, refl, ap, ◌∙◌, sym, ◌==◌, min, ltb, true, false, List,
  [], ◌∷◌, ◌++◌, length, take, drop, length-append, length-drop, append_assoc, append-nil,
  take-append-drop, arith, Bool-cases, inl, inr,
}
use xtf.Base.Run.{Run, out_of_fuel, fault, ok, ◌>>=◌, Returns, returned, Returns-weaken}
use xtf.Base.Index.{take_all}
use xtf.Console.{
  OutRing, pv_console_write_some, wait_for_space, wait_for_consumer, console_rounds,
  pv_console_write,
}
use xtf.Console.Queue.{IsQueue, pv_console_write_some_lem}

-- What a run of xenconsoled does to the queue: it takes `k` bytes.
pub record Consumed {D : Type 0} (received : D → List ℕ) (queue : List ℕ) (d : D) (s : OutRing × D)
    : Type 0 where
  pub k : ℕ
  pub within : k ≤ length queue
  pub left : IsQueue s.0 (drop k queue)
  pub took : received s.1 ≡ received d ++ take k queue
  pub moves : 0 < length queue → 0 < k

-- xenconsoled takes bytes from the front of the queue, at least one if there is one.
abbrev pub IsConsole : {D : Type 0} → (D → List ℕ) → (OutRing × D → OutRing × D) → Type 0
IsConsole {D} received xenconsoled =
    (ring : OutRing) (d : D) (queue : List ℕ)
    → IsQueue ring queue
    → Consumed received queue d (xenconsoled (ring, d))

rejoin :
    (k : ℕ) (queue before after : List ℕ)
    → after ≡ before ++ take k queue
    → after ++ drop k queue ≡ before ++ queue
rejoin k queue before after e =
    ap (λ s. s ++ drop k queue) e
    ∙ append_assoc before (take k queue) (drop k queue)
    ∙ ap (λ s. before ++ s) (take-append-drop k queue)

unfinished : {X : Type 0} (x : X) → out_of_fuel ≢ ok x
unfinished x e = absurd (cc)

ok-injective : {X : Type 0} (x y : X) → ok x ≡ ok y → x ≡ y
ok-injective x y e = ap (from x) e
  where
    from : {X : Type 0} → X → Run X → X
    from x (ok y) = y
    from x out_of_fuel = x
    from x fault = x

>>=-ok :
    {X Y : Type 0} (call : Run X) (continue : X → Run Y) (y : Y)
    → (call >>= continue) ≡ ok y
    → (x : X) × (call ≡ ok x) × (continue x ≡ ok y)
>>=-ok out_of_fuel continue y e = absurd (cc)
>>=-ok fault continue y e = absurd (cc)
>>=-ok (ok x) continue y e = (x, refl, e)

module _ {D : Type 0} (received : D → List ℕ) (xenconsoled : OutRing × D → OutRing × D)
    (console : IsConsole received xenconsoled) where
  -- The final loop, once it has a round for each byte that is not consumed.
  wait_for_consumer-Returns :
      (rounds : ℕ) (queue : List ℕ) (ring : OutRing) (d : D)
      → IsQueue ring queue
      → length queue ≤ rounds
      → Returns
          (λ (t : OutRing × D). IsQueue t.0 [] × (received t.1 ≡ received d ++ queue))
          (wait_for_consumer xenconsoled rounds (ring, d))
  unfolding wait_for_consumer
  wait_for_consumer-Returns zero [] ring d v h =
      let e : (ring.out_cons == ring.out_prod) ≡ true = ground (arith, v.index, v.produced) in
      rw e (returned (v, sym (append-nil _)))
  wait_for_consumer-Returns zero (c ∷ queue) ring d v h = absurd (omega arith)
  wait_for_consumer-Returns (suc rounds) [] ring d v h =
      let e : (ring.out_cons == ring.out_prod) ≡ true = ground (arith, v.index, v.produced) in
      rw e (returned (v, sym (append-nil _)))
  wait_for_consumer-Returns (suc rounds) (c ∷ queue) ring d v h =
      let e : (ring.out_cons == ring.out_prod) ≡ false =
        ground (arith, v.index, v.produced, v.fits) in
      let w = console ring d (c ∷ queue) v in
      let n : length (drop w.k (c ∷ queue)) ≤ rounds =
        omega (arith, length-drop w.k (c ∷ queue), w.moves (omega arith)) in
      rw e (
        Returns-weaken
          (wait_for_consumer-Returns rounds (drop w.k (c ∷ queue)) (xenconsoled (ring, d)).0
            (xenconsoled (ring, d)).1 w.left n)
          (λ t (a, b). (
            a,
            b ∙ rejoin w.k (c ∷ queue) (received d) (received (xenconsoled (ring, d)).1) w.took,
          )))

  -- The same behind a run of xenconsoled.
  caught_up :
      (rounds : ℕ) (queue : List ℕ) (d : D) (s : OutRing × D) (w : Consumed received queue d s)
      → length (drop w.k queue) ≤ rounds
      → Returns
          (λ (t : OutRing × D). IsQueue t.0 [] × (received t.1 ≡ received d ++ queue))
          (wait_for_consumer xenconsoled rounds s)
  caught_up rounds queue d s w h =
      Returns-weaken (wait_for_consumer-Returns rounds (drop w.k queue) s.0 s.1 w.left h)
        (λ t (a, b). (a, b ∙ rejoin w.k queue (received d) (received s.1) w.took))

  -- Against an xenconsoled that IsConsole describes, if the queue in the ring and the buffer fit into
  -- the ring, and there are more rounds than bytes of both, pv_console_write() returns with the ring
  -- empty, and xenconsoled has received the queue and then the buffer.
  pub pv_console_write-delivers :
      (rounds : ℕ) (buf queue : List ℕ) (ring : OutRing) (d : D)
      → IsQueue ring queue
      → length queue + length buf ≤ 2048
      → length queue + length buf < rounds
      → Returns
          (λ (t : OutRing × D). IsQueue t.0 [] × (received t.1 ≡ received d ++ (queue ++ buf)))
          (pv_console_write xenconsoled rounds buf (ring, d))
  unfolding pv_console_write console_rounds
  pv_console_write-delivers zero buf queue ring d v fits enough = absurd (omega arith)
  pv_console_write-delivers (suc rounds) buf queue ring d v fits enough =
      let (wrote, put) = pv_console_write_some_lem buf ring queue v in
      let all : (pv_console_write_some buf ring).0 ≡ length buf = omega (arith, wrote) in
      let over : ltb (length buf) (length buf) ≡ false = ground arith in
      let w = console (pv_console_write_some buf ring).1 d (queue ++ buf) (
        subst (λ k. IsQueue (pv_console_write_some buf ring).1 (queue ++ k))
          (take_all (min (length buf) (2048 - length queue)) buf (omega arith)) put) in
      rw (all, over)
        (caught_up rounds (queue ++ buf) d (xenconsoled ((pv_console_write_some buf ring).1, d)) w
          (omega (arith, length-append queue buf, length-drop w.k (queue ++ buf), enough)))

  -- Waiting for space keeps the ring a queue.
  wait_for_space-IsQueue :
      (rounds cons : ℕ) (queue : List ℕ) (s t : OutRing × D)
      → IsQueue s.0 queue
      → wait_for_space xenconsoled rounds cons s ≡ ok t
      → (left : List ℕ) × IsQueue t.0 left
  unfolding wait_for_space
  wait_for_space-IsQueue zero cons queue s t v e = elim (Bool-cases (s.0.out_cons == cons)) [
    | inl b ↦ absurd (unfinished t (rw b at e))
    | inr b ↦
        (queue, subst (λ (x : OutRing × D). IsQueue x.0 queue) (ok-injective s t (rw b at e)) v)
  ]
  wait_for_space-IsQueue (suc rounds) cons queue s t v e =
      elim (Bool-cases (s.0.out_cons == cons)) [
        | inl b ↦
            let w = console s.0 s.1 queue v in
            wait_for_space-IsQueue rounds cons (drop w.k queue) (xenconsoled s) t w.left (rw b at e)
        | inr b ↦
            (queue, subst (λ (x : OutRing × D). IsQueue x.0 queue) (ok-injective s t (rw b at e)) v)
      ]

  rounds-never :
      (rounds cons : ℕ) (buf : List ℕ) (written : ℕ) (queue : List ℕ) (s t : OutRing × D)
      → IsQueue s.0 queue
      → 2048 < length buf
      → console_rounds xenconsoled rounds cons buf written s ≢ ok t
  unfolding console_rounds
  rounds-never zero cons buf written queue s t v over e = unfinished t e
  rounds-never (suc rounds) cons buf written queue s t v over e =
      let (wrote, put) = pv_console_write_some_lem (drop written buf) s.0 queue v in
      let some_left : ltb (pv_console_write_some (drop written buf) s.0).0 (length buf) ≡ true =
        ground (arith, wrote, over) in
      let ring' = (pv_console_write_some (drop written buf) s.0).1 in
      let w = console ring' s.1 _ put in
      let (x, waited, later) =
        >>=-ok (wait_for_space xenconsoled rounds cons (xenconsoled (ring', s.1))) _ t
          (rw some_left at e) in
      let (left, v') =
        wait_for_space-IsQueue rounds cons (drop w.k _) (xenconsoled (ring', s.1)) x w.left
          waited in
      rounds-never rounds cons buf _ left x t v' over later

  -- From a ring that holds a queue, and against an xenconsoled that IsConsole describes, the
  -- pv_console_write() of a text that is longer than the ring does not return, in any number of rounds.
  pub pv_console_write-never :
      (rounds : ℕ) (buf queue : List ℕ) (ring : OutRing) (d : D) (t : OutRing × D)
      → IsQueue ring queue
      → 2048 < length buf
      → pv_console_write xenconsoled rounds buf (ring, d) ≢ ok t
  unfolding pv_console_write
  pv_console_write-never rounds buf queue ring d t v over =
      rounds-never rounds ring.out_cons buf 0 queue (ring, d) t v over
