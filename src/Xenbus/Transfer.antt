-- ===== src/Xenbus/Transfer.antt =====
-- A round of xenbus_write() and one of xenbus_read(), as steps on the queues of the page.
use xtf.Base.{
  ℕ, ◌+◌, ◌%◌, ◌^◌, ◌<◌, ◌≤◌, ◌≡◌, refl, ◌==◌, List, ◌++◌, length, take, drop, length-take,
  append-nil, arith, Bool-cases, inl, inr,
}
use mathlib.Core.Path.{subst}
use xtf.Base.Run.{Returns, returned}
use xtf.Xenbus.{Page, mask_xenbus_idx, write_part, write_round, read_part, read_round}
use xtf.Xenbus.Ring.{
  Holds, splice, difference-Holds, splice-Holds, copy_in_lem, copy_out_lem, front-Holds,
  consume-Holds,
}

-- the two directions of a page
abbrev pub Requests : Page → List ℕ → Type 0
Requests page q = Holds page.req page.req_cons page.req_prod q

abbrev pub Responses : Page → List ℕ → Type 0
Responses page r = Holds page.rsp page.rsp_cons page.rsp_prod r

-- What a round of xenbus_write() does to a page with the queue `q` of requests.
pub record Written (page : Page) (q bytes rest : List ℕ) (page' : Page) : Type 0 where
  pub part : ℕ
  pub within : part ≤ length bytes
  pub left : rest ≡ drop part bytes
  pub requests : Requests page' (q ++ take part bytes)
  pub room : length q + part ≤ 1023
  pub responses : (r : List ℕ) → Responses page r → Responses page' r
  pub moves : length q < 1023 → 0 < length bytes → 0 < part

write_part-bounds :
    (page : Page) (q : List ℕ) (len : ℕ)
    → Requests page q
    → length q ≤ 1023
    → (write_part page len ≤ len)
      × (length q + write_part page len ≤ 1023)
      × (page.req_prod % 1024 + write_part page len ≤ 1024)
      × (length q < 1023 → 0 < len → 0 < write_part page len)
unfolding write_part
write_part-bounds page q len v room =
    let d = difference-Holds page.req page.req_cons page.req_prod q v in
    (omega (arith, d), omega (arith, d), omega (arith, d), λ h k. omega (arith, d))

pub write_round-Written :
    (page : Page) (q bytes : List ℕ)
    → Requests page q
    → length q ≤ 1023
    → Returns (λ x. Written page q bytes x.0 x.1) (write_round bytes page)
unfolding write_round
write_round-Written page q bytes v room =
    let part = write_part page (length bytes) in
    let (within, small, here, moves) = write_part-bounds page q (length bytes) v room in
    let n : length (take part bytes) ≡ part = omega (arith, length-take part bytes, within) in
    let put =
      subst
        (λ (k : ℕ).
          Requests
            (record page {
              req = splice page.req (page.req_prod % 1024) (take part bytes);
              req_prod = (page.req_prod + k) % 2 ^ 32;
            })
            (q ++ take part bytes))
        n
        (splice-Holds page.req page.req_cons page.req_prod q (take part bytes) v
          (omega (arith, n, small)) (omega (arith, n, here))) in
    elim (Bool-cases (part == 0)) [
      | inl waits ↦
          let z : part ≡ 0 = ground (arith, waits) in
          rw waits (
            returned (record {
              part = 0;
              within = omega arith;
              left = refl;
              requests = rw append-nil v;
              room = omega (arith, room);
              responses = λ r w. w;
              moves = λ h k. absurd (omega (arith, moves h k, z));
            }))
      | inr copies ↦
          rw
            (
              copies,
              copy_in_lem page.req bytes (mask_xenbus_idx page.req_prod) part within
                  (omega (arith, here, v.size)),
            )
            (returned (record {
              part = part;
              within = within;
              left = refl;
              requests = put;
              room = small;
              responses = λ r w. w;
              moves = moves;
            }))
    ]

-- What a round of xenbus_read() does to a page with the queue `r` of responses.
pub record Taken (page : Page) (r : List ℕ) (len : ℕ) (bytes : List ℕ) (page' : Page) : Type 0 where
  pub part : ℕ
  pub within : part ≤ len
  pub there : part ≤ length r
  pub front : bytes ≡ take part r
  pub responses : Responses page' (drop part r)
  pub requests : (q : List ℕ) → Requests page q → Requests page' q
  pub moves : 0 < length r → 0 < len → 0 < part

read_part-bounds :
    (page : Page) (r : List ℕ) (len : ℕ)
    → Responses page r
    → (read_part page len ≤ len)
      × (read_part page len ≤ length r)
      × (page.rsp_cons % 1024 + read_part page len ≤ 1024)
      × (0 < length r → 0 < len → 0 < read_part page len)
unfolding read_part
read_part-bounds page r len v =
    let d = difference-Holds page.rsp page.rsp_cons page.rsp_prod r v in
    (omega (arith, d), omega (arith, d), omega (arith, d), λ h k. omega (arith, d))

pub read_round-Taken :
    (page : Page) (r : List ℕ) (len : ℕ)
    → Responses page r
    → Returns (λ x. Taken page r len x.0 x.1) (read_round len page)
unfolding read_round
read_round-Taken page r len v =
    let part = read_part page len in
    let (within, there, here, moves) = read_part-bounds page r len v in
    elim (Bool-cases (part == 0)) [
      | inl waits ↦
          let z : part ≡ 0 = ground (arith, waits) in
          rw waits (
            returned (record {
              part = 0;
              within = omega arith;
              there = omega arith;
              front = refl;
              responses = v;
              requests = λ q w. w;
              moves = λ h k. absurd (omega (arith, moves h k, z));
            }))
      | inr copies ↦
          rw
            (
              copies,
              copy_out_lem page.rsp (mask_xenbus_idx page.rsp_cons) part
                  (omega (arith, here, v.size)),
            )
            (returned (record {
              part = part;
              within = within;
              there = there;
              front = front-Holds page.rsp page.rsp_cons page.rsp_prod r part v there here;
              responses = consume-Holds page.rsp page.rsp_cons page.rsp_prod r part v there;
              requests = λ q w. w;
              moves = moves;
            }))
    ]
