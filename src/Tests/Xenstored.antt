-- ===== src/Tests/Xenstored.antt =====
-- A daemon that answers the first twenty bytes of the requests.
use xtf.Base.{
  ℕ, ◌+◌, ◌-◌, ◌<◌, ◌≤◌, ◌≡◌, refl, ap, ◌∙◌, sym, ◌==◌, leb, true, if◌then◌else◌, List, [], ◌∷◌,
  ◌++◌, length, take, drop, append_assoc, length-append, length-take, length-drop, append-nil,
  take-append-drop, arith, Bool-cases, inl, inr,
}
use xtf.Base.Run.{Run, out_of_fuel, fault, ok, Returns}
use xtf.Xenbus.{Page, read_round, write_round, difference}
use xtf.Xenbus.Ring.{difference-Holds}
use xtf.Xenbus.Transfer.{Requests, Responses, write_round-Written, read_round-Taken}
use xtf.Xenbus.Daemon.{IsDaemon}

-- the page from the other side
abbrev pub flip : Page → Page
flip page = record {
  req = page.rsp;
  rsp = page.req;
  req_cons = page.rsp_cons;
  req_prod = page.rsp_prod;
  rsp_cons = page.req_cons;
  rsp_prod = page.req_prod;
}

abbrev or_else : {X : Type 0} → Run X → X → X
or_else out_of_fuel y = y
or_else fault y = y
or_else (ok x) y = x

-- the bytes taken and sent
abbrev pub State : Type 0
State = List ℕ × List ℕ

module _ (answer : List ℕ) where
  abbrev pub reply : List ℕ → List ℕ
  reply s = if leb 20 (length s) then answer else []

  abbrev send_owed : List ℕ → Page → List ℕ × Page
  send_owed owed page =
      if difference page.req_prod page.req_cons == 0
      then or_else (write_round owed page) (owed, page)
      else (owed, page)

  unfoldable pub serve : Page × State → Page × State
  serve (page, (t, s)) =
      let (bytes, seen) = or_else (read_round 1024 (flip page)) ([], flip page) in
      let owed = drop (length s) (reply (t ++ bytes)) in
      let (left, after) = send_owed owed seen in
      (flip after, (t ++ bytes, s ++ take (length owed - length left) owed))

  Returns-or_else :
      {X : Type 0} {P : X → Type 0} {call : Run X} (y : X) → Returns P call → P (or_else call y)
  Returns-or_else y (Returns.returned holds) = holds

  drop_sent : (s owed : List ℕ) → drop (length s) (s ++ owed) ≡ owed
  drop_sent [] owed = refl
  drop_sent (x ∷ s) owed = drop_sent s owed

  reply_extends : (s t : List ℕ) → (u : List ℕ) × (reply (s ++ t) ≡ reply s ++ u)
  reply_extends s t = elim (Bool-cases (leb 20 (length s))) [
    | inl b ↦
        let c : leb 20 (length (s ++ t)) ≡ true = ground (arith, b, length-append s t) in
        ([], rw (b, c) (sym (append-nil answer)))
    | inr b ↦ (reply (s ++ t), rw b refl)
  ]

  -- What sending does to the responses `r`, the requests being on the other side.
  record Sent (page : Page) (r owed : List ℕ) (x : List ℕ × Page) : Type 0 where
    part : ℕ
    within : part ≤ length owed
    left : x.0 ≡ drop part owed
    responses : Requests x.1 (r ++ take part owed)
    requests : (q : List ℕ) → Responses page q → Responses x.1 q
    moves : length r ≡ 0 → 0 < length owed → 0 < part

  send_owed-Sent :
      (page : Page) (r owed : List ℕ) → Requests page r → Sent page r owed (send_owed owed page)
  send_owed-Sent page r owed v =
      let d : difference page.req_prod page.req_cons ≡ length r =
        difference-Holds page.req page.req_cons page.req_prod r v in
      elim (Bool-cases (length r == 0)) [
        | inl b ↦
            rw (d, b)
              (let w =
                  Returns-or_else (owed, page)
                    (write_round-Written page r owed v (ground (arith, b))) in
                record {
                  part = w.part;
                  within = w.within;
                  left = w.left;
                  responses = w.requests;
                  requests = w.responses;
                  moves = λ e h. w.moves (omega (arith, e)) h;
                })
        | inr b ↦
            rw (d, b)
              (record {
                part = 0;
                within = omega arith;
                left = refl;
                responses = rw append-nil v;
                requests = λ q w. w;
                moves = λ e h. absurd (ground (arith, e, b));
              })
      ]

  pub serve-IsDaemon : IsDaemon (λ (d : State). d.0) (λ (d : State). d.1) reply serve
  unfolding serve
  serve-IsDaemon = record {
    serves = λ page (t, s) q r owed requests room responses owes.
        let a = Returns-or_else ([], flip page) (read_round-Taken (flip page) q 1024 requests) in
        let bytes = (or_else (read_round 1024 (flip page)) ([], flip page)).0 in
        let seen = (or_else (read_round 1024 (flip page)) ([], flip page)).1 in
        let owed' = drop (length s) (reply (t ++ bytes)) in
        let left = (send_owed owed' seen).0 in
        let (u, more) = reply_extends t bytes in
        let all : reply (t ++ bytes) ≡ s ++ (owed ++ u) =
          more ∙ ap (λ v. v ++ u) owes ∙ append_assoc s owed u in
        let due : owed' ≡ owed ++ u = ap (drop (length s)) all ∙ drop_sent s (owed ++ u) in
        let n : length owed' ≡ length owed + length u = ap length due ∙ length-append owed u in
        let b = send_owed-Sent seen r owed' (a.requests r responses) in
        let m : length owed' - length left ≡ b.part =
          omega (arith, ap length b.left, length-drop b.part owed', b.within) in
        record {
          k = a.part;
          more = take (length owed' - length left) owed';
          owed = drop b.part owed';
          within = a.there;
          requests = b.requests (drop a.part q) a.responses;
          responses = rw m b.responses;
          takes = ap (λ v. t ++ v) a.front;
          sends = refl;
          owes = rw m (
              all
              ∙ ap (λ v. s ++ v) (sym due)
              ∙ ap (λ v. s ++ v) (sym (take-append-drop b.part owed'))
              ∙ sym (append_assoc s (take b.part owed') (drop b.part owed')));
          accepts = λ h. a.moves h (omega arith);
          answers = λ e f h.
              let g : length (reply t) ≡ length s + length owed =
                ap length owes ∙ length-append s owed in
              let p : 0 < b.part = b.moves f (omega (arith, g, h, n)) in
              omega (arith, m, p, b.within, length-take (length owed' - length left) owed');
        };
    extends = reply_extends;
  }
