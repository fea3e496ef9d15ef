-- ===== src/Xenbus/Message.antt =====
-- The messages of xenstore_read().
use xtf.Base.{
  ℕ, zero, suc, ◌+◌, ◌-◌, ◌*◌, ◌/◌, ◌%◌, ◌^◌, ◌<◌, ◌≤◌, ◌≡◌, ◌≢◌, refl, ap, ◌∙◌, sym, ltb, ◌==◌,
  min, Option, none, some, List, [], ◌∷◌, ◌++◌, length, take, drop, length-append, length-take,
  length-drop, append-nil, append_assoc, arith, true, false,
}
use mathlib.Core.Path.{subst}
use xtf.Base.Run.{Returns, returned, Returns-bind, Returns-weaken}
use xtf.CString.Length.{IsText, strlen_lem}
use xtf.Xenbus.{
  Page, Header, bytes32, header_bytes, load32, load_header, drain, take_payload, xenstore_read,
}
use xtf.Xenbus.Daemon.{IsDaemon, Link}
use xtf.Xenbus.Exchange.{xenbus_write-Link, xenbus_read-exactly}
use xtf.Xenbus.Streams.{join_parts, after_part, empty}

load32-bytes32 : (v : ℕ) (rest : List ℕ) → v < 2 ^ 32 → load32 (bytes32 v ++ rest) ≡ v
unfolding load32
load32-bytes32 v rest h = omega arith

-- the fields are uint32_t
pub record IsHeader (hdr : Header) : Type 0 where
  pub type : hdr.type < 2 ^ 32
  pub req_id : hdr.req_id < 2 ^ 32
  pub tx_id : hdr.tx_id < 2 ^ 32
  pub len : hdr.len < 2 ^ 32

-- A header that is written and read again is the same, whatever follows it.
pub load_header-header_bytes :
    (hdr : Header) (rest : List ℕ) → IsHeader hdr → load_header (header_bytes hdr ++ rest) ≡ hdr
unfolding load_header
load_header-header_bytes hdr rest v =
    let a =
      load32-bytes32 hdr.type
        (bytes32 hdr.req_id ++ (bytes32 hdr.tx_id ++ (bytes32 hdr.len ++ rest))) v.type in
    let b = load32-bytes32 hdr.req_id (bytes32 hdr.tx_id ++ (bytes32 hdr.len ++ rest)) v.req_id in
    let c = load32-bytes32 hdr.tx_id (bytes32 hdr.len ++ rest) v.tx_id in
    let d = load32-bytes32 hdr.len rest v.len in
    λ i. record { type = a i; req_id = b i; tx_id = c i; len = d i }

with_nul : (name memory : List ℕ) → take (length name + 1) (name ++ 0 ∷ memory) ≡ name ++ 0 ∷ []
with_nul [] memory = refl
with_nul (c ∷ name) memory =
    let e : suc (length name) + 1 ≡ suc (length name + 1) = omega arith in
    rw e (ap (◌∷◌ c) (with_nul name memory))

-- the request for a path
abbrev pub request : (name : List ℕ) → List ℕ
request name =
    header_bytes (record { type = 2; req_id = 0; tx_id = 0; len = length name + 1 })
    ++ (name ++ 0 ∷ [])

module _ {D : Type 0} (xenstored : Page × D → Page × D) (taken sent : D → List ℕ)
    (reply : List ℕ → List ℕ) (daemon : IsDaemon taken sent reply xenstored) where
  drain-Link :
      (turns rounds len : ℕ) (R W bytes rest : List ℕ) (s : Page × D)
      → Link taken sent reply R W s
      → length bytes ≡ len
      → reply W ≡ R ++ (bytes ++ rest)
      → len ≤ turns * 4096
      → 1023 + 4096 ≤ rounds
      → Returns (Link taken sent reply (R ++ bytes) W) (drain xenstored turns rounds len s)
  unfolding drain
  drain-Link turns rounds zero R W bytes rest s l full awaited h enough = returned (
      subst (λ t. Link taken sent reply t W s)
        (sym (append-nil R) ∙ ap (λ t. R ++ t) (sym (empty bytes full))) l)
  drain-Link zero rounds (suc len) R W bytes rest s l full awaited h enough =
      absurd (omega (arith, h))
  drain-Link (suc turns) rounds (suc len) R W bytes rest s l full awaited h enough =
      let part = min (suc len) 4096 in
      let n : length (take part bytes) ≡ part = omega (arith, full, length-take part bytes) in
      Returns-bind
        (xenbus_read-exactly xenstored taken sent reply daemon R W rounds part (take part bytes)
          (drop part bytes ++ rest) s l n
          (awaited
            ∙ after_part R bytes rest part
            ∙ append_assoc R (take part bytes) (drop part bytes ++ rest))
          (omega (arith, enough)))
        (λ x (same, linked).
          Returns-weaken
            (drain-Link turns rounds (suc len - part) (R ++ take part bytes) W (drop part bytes)
              rest x.1 linked (omega (arith, full, length-drop part bytes))
              (awaited ∙ after_part R bytes rest part) (omega (arith, h)) enough)
            (λ y. subst (λ t. Link taken sent reply t W y) (join_parts R bytes part)))

  module _ (payload name memory body rest : List ℕ) (ans : Header) (R W : List ℕ) (s : Page × D)
      (rounds : ℕ) (l : Link taken sent reply R W s) (text : IsText name)
      (short : length name + 1 < 2 ^ 32) (sane : IsHeader ans) (full : length body ≡ ans.len)
      (awaited : reply (W ++ request name) ≡ R ++ (header_bytes ans ++ (body ++ rest)))
      (enough : 5119 + length name ≤ rounds) where
    -- xenstore_read() up to its response header
    to_payload :
        (P : Option (List ℕ) × (Page × D) → Type 0)
        → ((t : Page × D)
            → Link taken sent reply (R ++ header_bytes ans) (W ++ request name) t
            → Returns P (take_payload xenstored rounds payload ans t))
        → Returns P (xenstore_read xenstored rounds payload (name ++ 0 ∷ memory) s)
    unfolding xenstore_read
    to_payload P after =
        let n : (length name + 1) % 2 ^ 32 ≡ length name + 1 = omega (arith, short) in
        let hdr : List ℕ =
          header_bytes (record { type = 2; req_id = 0; tx_id = 0; len = length name + 1 }) in
        let whole : (W ++ hdr) ++ (name ++ 0 ∷ []) ≡ W ++ request name =
          append_assoc W hdr (name ++ 0 ∷ []) in
        let size : length (name ++ 0 ∷ []) ≤ rounds =
          omega (arith, length-append name (0 ∷ []), enough) in
        rw (strlen_lem name memory text, n, with_nul name memory)
          (Returns-bind
            (xenbus_write-Link xenstored taken sent reply daemon R W hdr s rounds l
              (omega (arith, enough)))
            (λ s1 l1.
              Returns-bind
                (xenbus_write-Link xenstored taken sent reply daemon R (W ++ hdr) (name ++ 0 ∷ [])
                  s1 rounds l1 size)
                (λ s2 l2.
                  Returns-bind
                    (xenbus_read-exactly xenstored taken sent reply daemon R (W ++ request name)
                      rounds 16 (header_bytes ans) (body ++ rest) s2
                      (subst (λ t. Link taken sent reply R t s2) whole l2) refl awaited
                      (omega (arith, enough)))
                    (λ x (same, l3).
                      rw (same, load_header-header_bytes ans [] sane) (after x.1 l3)))))

    joined : (R ++ header_bytes ans) ++ body ≡ R ++ (header_bytes ans ++ body)
    joined = append_assoc R (header_bytes ans) body

    left_to_read : reply (W ++ request name) ≡ (R ++ header_bytes ans) ++ (body ++ rest)
    left_to_read = awaited ∙ sym (append_assoc R (header_bytes ans) (body ++ rest))

    -- If xenstored answers the request with a header of type XS_READ and a payload of at most 4096 bytes,
    -- xenstore_read() returns, with the payload and a NUL behind it at the start of its buffer, and has
    -- read the answer and nothing of what follows it.
    pub xenstore_read-answered :
        ans.type ≡ 2
        → ans.len ≤ 4096
        → Returns
            (λ (x : Option (List ℕ) × (Page × D)).
              (x.0 ≡ some (body ++ 0 ∷ drop (ans.len + 1) payload))
              × Link taken sent reply (R ++ (header_bytes ans ++ body)) (W ++ request name) x.1)
            (xenstore_read xenstored rounds payload (name ++ 0 ∷ memory) s)
    unfolding take_payload
    xenstore_read-answered ok_type fits = to_payload _ (λ t lt.
        let a : (ans.type == 2) ≡ true = ground (arith, ok_type) in
        let b : ltb 4096 ans.len ≡ false = ground (arith, fits) in
        rw (a, b)
          (Returns-bind
            (xenbus_read-exactly xenstored taken sent reply daemon (R ++ header_bytes ans)
              (W ++ request name) rounds ans.len body rest t lt full left_to_read
              (omega (arith, enough, fits)))
            (λ x (same, linked). returned (
              ap (λ b. some (b ++ 0 ∷ drop (ans.len + 1) payload)) same,
              subst (λ v. Link taken sent reply v (W ++ request name) x.1) joined linked,
            ))))

    -- If the answer has the type XS_READ and a payload of more than 4096 bytes, xenstore_read() returns
    -- NULL, and has read the answer with its payload and nothing of what follows it.
    pub xenstore_read-too_long :
        ans.type ≡ 2
        → 4096 < ans.len
        → Returns
            (λ (x : Option (List ℕ) × (Page × D)).
              (x.0 ≡ none)
              × Link taken sent reply (R ++ (header_bytes ans ++ body)) (W ++ request name) x.1)
            (xenstore_read xenstored rounds payload (name ++ 0 ∷ memory) s)
    unfolding take_payload
    xenstore_read-too_long ok_type over = to_payload _ (λ t lt.
        let a : (ans.type == 2) ≡ true = ground (arith, ok_type) in
        let b : ltb 4096 ans.len ≡ true = ground (arith, over) in
        rw (a, b)
          (Returns-bind
            (drain-Link (ans.len / 4096 + 1) rounds ans.len (R ++ header_bytes ans)
              (W ++ request name) body rest t lt full left_to_read (omega arith)
              (omega (arith, enough)))
            (λ x linked.
              returned
                (refl, subst (λ v. Link taken sent reply v (W ++ request name) x) joined linked))))

    -- If the answer has another type, such as XS_ERROR, xenstore_read() returns NULL, and has read
    -- the header only: the payload is what the next read gets.
    pub xenstore_read-other_type :
        ans.type ≢ 2
        → Returns
            (λ (x : Option (List ℕ) × (Page × D)).
              (x.0 ≡ none) × Link taken sent reply (R ++ header_bytes ans) (W ++ request name) x.1)
            (xenstore_read xenstored rounds payload (name ++ 0 ∷ memory) s)
    unfolding take_payload
    xenstore_read-other_type other = to_payload _ (λ t lt.
        let a : (ans.type == 2) ≡ false = ground (arith, other) in rw a (returned (refl, lt)))
