-- ===== src/Xenbus.antt =====
-- common/xenbus.c and the page of include/xen/io/xs_wire.h that it shares with xenstored.
pub mod Ring
pub mod Transfer
pub mod Daemon
pub mod Streams
pub mod Exchange
pub mod Message
use xtf.Base.{
  ℕ, zero, suc, ◌+◌, ◌-◌, ◌*◌, ◌/◌, ◌%◌, ◌^◌, ◌==◌, ltb, leb, min, Bool, true, false, if◌then◌else◌,
  List, [], ◌∷◌, ◌++◌, Option, none, some, length, take, drop, replicate,
}
use xtf.Base.Int.{ℤ, pos, negsuc}
use xtf.Base.Run.{Run, ok, fault, out_of_fuel, ◌>>=◌}
use xtf.CString.{strlen, memcpy}

-- `struct xenbus_interface`; an index is below 2^32
pub record Page : Type 0 where
  pub req : List ℕ
  pub rsp : List ℕ
  pub req_cons : ℕ
  pub req_prod : ℕ
  pub rsp_cons : ℕ
  pub rsp_prod : ℕ

abbrev pub mask_xenbus_idx : ℕ → ℕ
mask_xenbus_idx idx = idx % 1024

-- `prod - cons`
abbrev pub difference : ℕ → ℕ → ℕ
difference prod cons = (prod + 2 ^ 32 - cons) % 2 ^ 32

-- `memcpy(ring + at, data, part)`
unfoldable pub copy_in : List ℕ → (at : ℕ) → List ℕ → (part : ℕ) → Run (List ℕ)
copy_in ring at bytes part = memcpy (drop at ring) bytes part >>= λ rest. ok (take at ring ++ rest)

-- `memcpy(data, ring + at, part)`: the bytes that it writes
unfoldable pub copy_out : List ℕ → (at part : ℕ) → Run (List ℕ)
copy_out ring at part = memcpy (replicate part 0) (drop at ring) part

-- The bytes that a round of xenbus_write() copies; 0 is a wait.
unfoldable pub write_part : Page → (len : ℕ) → ℕ
write_part page len =
    let space = 1023 - mask_xenbus_idx (difference page.req_prod page.req_cons) in
    min (min space (1024 - mask_xenbus_idx page.req_prod)) len

-- what is left of the data, and the page
unfoldable pub write_round : List ℕ → Page → Run (List ℕ × Page)
write_round bytes page =
    let part = write_part page (length bytes) in
    let copied : Run (List ℕ × Page) = do
      req ← copy_in page.req (mask_xenbus_idx page.req_prod) bytes part
      ok (drop part bytes, record page { req = req; req_prod = (page.req_prod + part) % 2 ^ 32 })
    in if part == 0 then ok (bytes, page) else copied

-- The bytes that a round of xenbus_read() copies; 0 is a wait.
unfoldable pub read_part : Page → (len : ℕ) → ℕ
read_part page len =
    min (min (difference page.rsp_prod page.rsp_cons) (1024 - mask_xenbus_idx page.rsp_cons)) len

-- the bytes that are read, and the page
unfoldable pub read_round : ℕ → Page → Run (List ℕ × Page)
read_round len page =
    let part = read_part page len in
    let copied : Run (List ℕ × Page) = do
      bytes ← copy_out page.rsp (mask_xenbus_idx page.rsp_cons) part
      ok (bytes, record page { rsp_cons = (page.rsp_cons + part) % 2 ^ 32 })
    in if part == 0 then ok ([], page) else copied

-- `struct xenstore_msg_hdr`
pub record Header : Type 0 where
  pub type : ℕ
  pub req_id : ℕ
  pub tx_id : ℕ
  pub len : ℕ

-- an uint32_t in memory
abbrev pub bytes32 : ℕ → List ℕ
bytes32 v = v % 256 ∷ v / 256 % 256 ∷ v / 65536 % 256 ∷ v / 16777216 % 256 ∷ []

abbrev pub header_bytes : Header → List ℕ
header_bytes hdr =
    bytes32 hdr.type ++ (bytes32 hdr.req_id ++ (bytes32 hdr.tx_id ++ bytes32 hdr.len))

-- the number that the first four bytes are
unfoldable pub load32 : List ℕ → ℕ
load32 (a ∷ b ∷ c ∷ d ∷ s) = a + b * 256 + c * 65536 + d * 16777216
load32 s = 0

unfoldable pub load_header : List ℕ → Header
load_header s = record {
  type = load32 s;
  req_id = load32 (drop 4 s);
  tx_id = load32 (drop 8 s);
  len = load32 (drop 12 s);
}

-- xenstored with its own state `D`. It runs at the start of each round of a loop, for at other times it
-- changes nothing that the round looks at; the notifications and the wait for the event channel only
-- make it run soon.
module _ {D : Type 0} (xenstored : Page × D → Page × D) where
  unfoldable pub xenbus_write : (rounds : ℕ) → List ℕ → Page × D → Run (Page × D)
  xenbus_write rounds [] s = ok s
  xenbus_write zero (c ∷ bytes) s = out_of_fuel
  xenbus_write (suc rounds) (c ∷ bytes) s =
      let (page, d) = xenstored s in
      write_round (c ∷ bytes) page >>= λ (rest, page). xenbus_write rounds rest (page, d)

  unfoldable pub xenbus_read : (rounds len : ℕ) → Page × D → Run (List ℕ × (Page × D))
  xenbus_read rounds zero s = ok ([], s)
  xenbus_read zero (suc len) s = out_of_fuel
  xenbus_read (suc rounds) (suc len) s =
      let (page, d) = xenstored s in
      read_round (suc len) page >>= λ (part, page).
      xenbus_read rounds (suc len - length part) (page, d) >>= λ (rest, s). ok (part ++ rest, s)

  -- `while ( hdr.len )`, which drains a payload that is too long
  unfoldable pub drain : (turns rounds len : ℕ) → Page × D → Run (Page × D)
  drain turns rounds zero s = ok s
  drain zero rounds (suc len) s = out_of_fuel
  drain (suc turns) rounds (suc len) s =
      let part = min (suc len) 4096 in
      xenbus_read rounds part s >>= λ (bytes, s). drain turns rounds (suc len - part) s

  -- from the response header on; `none` is NULL, `some` what `payload` then holds
  unfoldable pub take_payload :
      (rounds : ℕ) → List ℕ → Header → Page × D → Run (Option (List ℕ) × (Page × D))
  take_payload rounds payload hdr s =
      let drained = drain (hdr.len / 4096 + 1) rounds hdr.len s >>= λ s. ok (none, s) in
      let read = xenbus_read rounds hdr.len s >>= λ (bytes, s).
      ok (some (bytes ++ 0 ∷ drop (hdr.len + 1) payload), s) in
      if hdr.type == 2 then if ltb 4096 hdr.len then drained else read else ok (none, s)

  unfoldable pub xenstore_read :
      (rounds : ℕ) → List ℕ → List ℕ → Page × D → Run (Option (List ℕ) × (Page × D))
  xenstore_read rounds payload path s = do
    n ← strlen path
    let hdr : Header = record { type = 2; req_id = 0; tx_id = 0; len = (n + 1) % 2 ^ 32 }
    s ← xenbus_write rounds (header_bytes hdr) s
    s ← xenbus_write rounds (take hdr.len path) s
    (answer, s) ← xenbus_read rounds 16 s
    take_payload rounds payload (load_header answer) s

-- init_xenbus(); `none` is a panic. The bitmap of events has 4096 bits.
unfoldable pub init_xenbus : (ring port : ℕ) → Option (ℕ × ℕ)
init_xenbus ring port = if leb 4096 port then none else some (ring, port)

-- xenstore_init(), by the result of hypercall_evtchn_status(): its return value and `es.status`, which
-- is EVTCHN_STATUS_interdomain for a bound port
unfoldable pub xenstore_init : (xb_port : ℕ) → ℤ × ℕ → ℤ
xenstore_init zero answer = negsuc 18
xenstore_init (suc port) (pos zero, status) = if status == 2 then pos 0 else negsuc 18
xenstore_init (suc port) (rc, status) = negsuc 18
