-- ===== src/Xenbus/Exchange.antt =====
-- xenbus_write() and xenbus_read() against xenstored.
use xtf.Base.{
  ℕ, zero, suc, ◌+◌, ◌-◌, ◌<◌, ◌≤◌, ◌≡◌, refl, ap, ap₂, ◌∙◌, sym, List, [], ◌∷◌, ◌++◌, length, take,
  drop, length-append, length-take, length-drop, append-nil, append_assoc, take-append-drop, arith,
}
use mathlib.Core.Path.{subst}
use xtf.Base.Run.{ok, Returns, returned, Returns-bind, Returns-weaken}
use xtf.Xenbus.{Page, write_round, read_round, xenbus_write, xenbus_read}
use xtf.Xenbus.Transfer.{write_round-Written, read_round-Taken}
use xtf.Xenbus.Daemon.{Served, IsDaemon, Link, HasRead}
use xtf.Xenbus.Streams.{
  join_parts, after_part, shrinks, taken_and_left, empty, front_of_answer, streams_agree, advances,
}

module _ {D : Type 0} (xenstored : Page × D → Page × D) (taken sent : D → List ℕ)
    (reply : List ℕ → List ℕ) (daemon : IsDaemon taken sent reply xenstored) where
  served :
      (R W : List ℕ) (s : Page × D) (l : Link taken sent reply R W s)
      → Served taken sent reply l.q l.r s.1 (xenstored s)
  served R W s l = daemon.serves s.0 s.1 l.q l.r l.owed l.requests l.room l.responses l.owes

  -- A round of xenbus_write() puts at least one byte into the ring.
  write_round-Link :
      (R W bytes : List ℕ) (s : Page × D)
      → Link taken sent reply R W s
      → 0 < length bytes
      → Returns
          (λ x.
            (part : ℕ) × (0 < part)
            × (part ≤ length bytes)
            × (x.0 ≡ drop part bytes)
            × Link taken sent reply R (W ++ take part bytes) (x.1, (xenstored s).1))
          (write_round bytes (xenstored s).0)
  write_round-Link R W bytes s l some_left =
      let v = served R W s l in
      let n : length (drop v.k l.q) ≡ length l.q - v.k = length-drop v.k l.q in
      Returns-weaken
        (write_round-Written (xenstored s).0 (drop v.k l.q) bytes v.requests
          (omega (arith, n, l.room)))
        (λ x w. (
          w.part,
          w.moves (omega (arith, n, shrinks v.k (length l.q) v.accepts l.room)) some_left,
          w.within,
          w.left,
          record {
            q = drop v.k l.q ++ take w.part bytes;
            r = l.r ++ v.more;
            owed = v.owed;
            requests = w.requests;
            room = omega (
              arith,
              n,
              w.room,
              length-append (drop v.k l.q) (take w.part bytes),
              length-take w.part bytes,
            );
            responses = w.responses (l.r ++ v.more) v.responses;
            written =
                taken_and_left v.k l.q (taken s.1) (take w.part bytes) W (taken (xenstored s).1)
                  v.takes l.written;
            arrived = v.sends ∙ ap (λ t. t ++ v.more) l.arrived ∙ append_assoc R l.r v.more;
            owes = v.owes;
          },
        ))

  -- Between calls of the driver, and against an xenstored that IsDaemon describes, xenbus_write()
  -- returns, in at most as many rounds as there are bytes, and has then written the bytes, of which none
  -- was lost or overwritten: each is in the ring or taken by xenstored.
  pub xenbus_write-Link :
      (R W bytes : List ℕ) (s : Page × D) (rounds : ℕ)
      → Link taken sent reply R W s
      → length bytes ≤ rounds
      → Returns (Link taken sent reply R (W ++ bytes)) (xenbus_write xenstored rounds bytes s)
  unfolding xenbus_write
  xenbus_write-Link R W [] s rounds l h =
      returned (subst (λ t. Link taken sent reply R t s) (sym (append-nil W)) l)
  xenbus_write-Link R W (c ∷ bytes) s zero l h = absurd (omega arith)
  xenbus_write-Link R W (c ∷ bytes) s (suc rounds) l h =
      Returns-bind (write_round-Link R W (c ∷ bytes) s l (omega arith))
        (λ x (part, some, within, left, linked).
          let shorter : length x.0 ≤ rounds =
            omega (arith, ap length left, length-drop part (c ∷ bytes)) in
          let whole : (W ++ take part (c ∷ bytes)) ++ x.0 ≡ W ++ (c ∷ bytes) =
            ap (λ t. (W ++ take part (c ∷ bytes)) ++ t) left ∙ join_parts W (c ∷ bytes) part in
          subst
            (λ t.
              Returns (Link taken sent reply R t)
                (xenbus_write xenstored rounds x.0 (x.1, (xenstored s).1)))
            whole
            (xenbus_write-Link R (W ++ take part (c ∷ bytes)) x.0 (x.1, (xenstored s).1) rounds
              linked shorter))

  -- Where both directions are empty, xenstored owes what the driver waits for.
  outstanding :
      (R W bytes rest : List ℕ) (s : Page × D) (l : Link taken sent reply R W s)
      → reply W ≡ R ++ (bytes ++ rest)
      → 0 < length bytes
      → length l.q ≡ 0
      → length l.r ≡ 0
      → length (sent s.1) < length (reply (taken s.1))
  outstanding R W bytes rest s l awaited some_left no_request no_response =
      let none_left : l.q ≡ [] = empty l.q no_request in
      let all : taken s.1 ≡ W =
        sym (append-nil (taken s.1)) ∙ ap (λ t. taken s.1 ++ t) (sym none_left) ∙ l.written in
      let answer : length (reply (taken s.1)) ≡ length (R ++ (bytes ++ rest)) =
        ap length (ap reply all ∙ awaited) in
      let came : length (sent s.1) ≡ length (R ++ l.r) = ap length l.arrived in
      omega (
        arith,
        answer,
        came,
        no_response,
        length-append R l.r,
        length-append R (bytes ++ rest),
        length-append bytes rest,
      )

  -- what a round of xenbus_read() reads of the bytes that it waits for
  record Advanced (R W bytes : List ℕ) (s : Page × D) (n : ℕ) (x : List ℕ × Page) : Type 0 where
    part : ℕ
    within : part ≤ length bytes
    front : x.0 ≡ take part bytes
    link : Link taken sent reply (R ++ take part bytes) W (x.1, (xenstored s).1)
    shrinks : length link.q < n + part
    keeps : length link.q ≤ n

  -- A round of xenbus_read() takes a request out of the ring or reads at least one byte.
  read_round-Link :
      (R W bytes rest : List ℕ) (s : Page × D) (l : Link taken sent reply R W s)
      → reply W ≡ R ++ (bytes ++ rest)
      → 0 < length bytes
      → Returns (Advanced R W bytes s (length l.q)) (read_round (length bytes) (xenstored s).0)
  read_round-Link R W bytes rest s l awaited some_left =
      let v = served R W s l in
      let n : length (drop v.k l.q) ≡ length l.q - v.k = length-drop v.k l.q in
      let m : length (l.r ++ v.more) ≡ length l.r + length v.more = length-append l.r v.more in
      let (u, later) = daemon.extends (taken (xenstored s).1) (drop v.k l.q) in
      let all : taken (xenstored s).1 ++ drop v.k l.q ≡ W =
        ap (λ t. taken (xenstored s).1 ++ t) (sym (append-nil (drop v.k l.q)))
        ∙ taken_and_left v.k l.q (taken s.1) [] W (taken (xenstored s).1) v.takes l.written
        ∙ append-nil W in
      let came : sent (xenstored s).1 ≡ R ++ (l.r ++ v.more) =
        v.sends ∙ ap (λ t. t ++ v.more) l.arrived ∙ append_assoc R l.r v.more in
      let streams : (l.r ++ v.more) ++ (v.owed ++ u) ≡ bytes ++ rest =
        streams_agree reply R W (l.r ++ v.more) v.owed u (bytes ++ rest) (sent (xenstored s).1)
          (taken (xenstored s).1) (drop v.k l.q) awaited all later v.owes came in
      Returns-weaken (read_round-Taken (xenstored s).0 (l.r ++ v.more) (length bytes) v.responses)
        (λ x w.
          let same : x.0 ≡ take w.part bytes =
            w.front
            ∙ front_of_answer (l.r ++ v.more) v.owed u bytes rest w.part streams w.there w.within in
          record {
            part = w.part;
            within = w.within;
            front = same;
            link = record {
              q = drop v.k l.q;
              r = drop w.part (l.r ++ v.more);
              owed = v.owed;
              requests = w.requests (drop v.k l.q) v.requests;
              room = omega (arith, n, l.room);
              responses = w.responses;
              written = all;
              arrived =
                  came
                  ∙ ap (λ t. R ++ t) (sym (take-append-drop w.part (l.r ++ v.more)))
                  ∙ ap (λ t. R ++ (t ++ drop w.part (l.r ++ v.more))) (sym w.front ∙ same)
                  ∙ sym (append_assoc R (take w.part bytes) (drop w.part (l.r ++ v.more)));
              owes = v.owes;
            };
            keeps = omega (arith, n);
            shrinks =
                subst (λ t. t < length l.q + w.part) (sym n)
                  (advances v.k (length l.q) (length l.r) (length v.more) w.part v.accepts
                    (λ e f. v.answers e f (outstanding R W bytes rest s l awaited some_left e f))
                    (λ h. w.moves (omega (arith, m, h)) some_left));
          })

  -- xenbus_read() by the number of its rounds
  read_rounds :
      (R W : List ℕ) (rounds len : ℕ) (bytes rest : List ℕ) (s : Page × D)
      (l : Link taken sent reply R W s)
      → length bytes ≡ len
      → reply W ≡ R ++ (bytes ++ rest)
      → length l.q + len ≤ rounds
      → Returns (HasRead taken sent reply R W bytes) (xenbus_read xenstored rounds len s)
  unfolding xenbus_read
  read_rounds R W rounds zero bytes rest s l full awaited h =
      let nothing : [] ≡ bytes = sym (empty bytes full) in
      subst (λ t. Returns (HasRead taken sent reply R W t) (ok ([], s))) nothing
        (returned (refl, subst (λ t. Link taken sent reply t W s) (sym (append-nil R)) l))
  read_rounds R W zero (suc len) bytes rest s l full awaited h = absurd (omega (arith, h))
  read_rounds R W (suc rounds) (suc len) bytes rest s l full awaited h =
      Returns-bind
        (subst
          (λ (k : ℕ). Returns (Advanced R W bytes s (length l.q)) (read_round k (xenstored s).0))
          full (read_round-Link R W bytes rest s l awaited (omega (arith, full))))
        (λ x v.
          let n : length x.0 ≡ v.part =
            omega (arith, ap length v.front, length-take v.part bytes, v.within) in
          Returns-bind
            (read_rounds (R ++ take v.part bytes) W rounds (suc len - length x.0)
              (drop v.part bytes) rest (x.1, (xenstored s).1) v.link
              (omega (arith, n, full, length-drop v.part bytes))
              (awaited ∙ after_part R bytes rest v.part)
              (omega (arith, n, full, v.shrinks, v.keeps, v.within, h)))
            (λ y (same, linked). returned (
              ap₂ ◌++◌ v.front same ∙ take-append-drop v.part bytes,
              subst (λ t. Link taken sent reply t W y.1) (join_parts R bytes v.part) linked,
            )))

  -- read_rounds from any state
  pub xenbus_read-exactly :
      (R W : List ℕ) (rounds len : ℕ) (bytes rest : List ℕ) (s : Page × D)
      → Link taken sent reply R W s
      → length bytes ≡ len
      → reply W ≡ R ++ (bytes ++ rest)
      → 1023 + len ≤ rounds
      → Returns (HasRead taken sent reply R W bytes) (xenbus_read xenstored rounds len s)
  xenbus_read-exactly R W rounds len bytes rest s l full awaited h =
      read_rounds R W rounds len bytes rest s l full awaited (omega (arith, l.room))

  -- Between calls of the driver, if `bytes` are what xenstored answers next to what was written,
  -- xenbus_read() of as many bytes returns with them, in at most 1023 rounds more than there are bytes.
  pub xenbus_read-Link :
      (R W bytes rest : List ℕ) (s : Page × D) (rounds : ℕ)
      → Link taken sent reply R W s
      → reply W ≡ R ++ (bytes ++ rest)
      → 1023 + length bytes ≤ rounds
      → Returns (HasRead taken sent reply R W bytes) (xenbus_read xenstored rounds (length bytes) s)
  xenbus_read-Link R W bytes rest s rounds l awaited h =
      xenbus_read-exactly R W rounds (length bytes) bytes rest s l refl awaited h
