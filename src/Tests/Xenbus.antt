-- ===== src/Tests/Xenbus.antt =====
-- common/xenbus.c against a daemon that answers at once.
use xtf.Base.{
  ℕ, ◌+◌, ◌^◌, ◌<◌, ◌≡◌, refl, List, [], ◌∷◌, ◌++◌, append-nil, replicate, length-replicate, Option,
  none, some, arith,
}
use xtf.Base.Run.{Returns}
use xtf.CString.Length.{IsText}
use xtf.Xenbus.{Page, Header, header_bytes, xenbus_write, xenbus_read, xenstore_read}
use xtf.Xenbus.Ring.{Holds}
use xtf.Xenbus.Daemon.{Link, HasRead}
use xtf.Xenbus.Exchange.{xenbus_write-Link, xenbus_read-Link}
use xtf.Xenbus.Message.{request, xenstore_read-answered, xenstore_read-other_type}
use xtf.Tests.Xenstored.{State, reply, serve, serve-IsDaemon}

abbrev ring : List ℕ
ring = replicate 1024 0

-- The indices are about to wrap.
abbrev start : Page × State
start = (
  record {
    req = ring;
    rsp = ring;
    req_cons = 4294967290;
    req_prod = 4294967290;
    rsp_cons = 7;
    rsp_prod = 7;
  },
  ([], []),
)

abbrev taken : State → List ℕ
taken d = d.0

abbrev sent : State → List ℕ
sent d = d.1

empty-Holds : (at : ℕ) → at + 0 < 2 ^ 32 → Holds ring at at []
empty-Holds at h = record {
  size = length-replicate {A = ℕ} 1024 0;
  index = omega arith;
  produced = omega arith;
  fits = omega arith;
  bytes = λ i lt. absurd (omega arith);
}

start-Link : (answer : List ℕ) → Link taken sent (reply answer) [] [] start
start-Link answer = record {
  q = [];
  r = [];
  owed = [];
  requests = empty-Holds 4294967290 (omega arith);
  room = omega arith;
  responses = empty-Holds 7 (omega arith);
  written = refl;
  arrived = refl;
  owes = refl;
}

abbrev dom : List ℕ
dom = b'd' ∷ b'o' ∷ b'm' ∷ []

dom-IsText : IsText dom
dom-IsText = (λ e. omega arith, (λ e. omega arith, (λ e. omega arith, tt)))

abbrev header : (type len : ℕ) → Header
header type len = record { type = type; req_id = 0; tx_id = 0; len = len }

abbrev answer : List ℕ
answer = header_bytes (header 2 2) ++ (b'o' ∷ b'k' ∷ [])

xenbus_write-Link_example :
    Returns
      (Link taken sent (reply answer) [] (request dom))
      (xenbus_write (serve answer) 20 (request dom) start)
xenbus_write-Link_example =
    xenbus_write-Link (serve answer) taken sent (reply answer) (serve-IsDaemon answer) [] []
      (request dom) start 20 (start-Link answer) (omega arith)

-- The request was taken, and is not answered yet.
abbrev waiting : Page × State
waiting = (start.0, (request dom, []))

waiting-Link : Link taken sent (reply answer) [] (request dom) waiting
waiting-Link = record {
  q = [];
  r = [];
  owed = answer;
  requests = empty-Holds 4294967290 (omega arith);
  room = omega arith;
  responses = empty-Holds 7 (omega arith);
  written = append-nil (request dom);
  arrived = refl;
  owes = refl;
}

xenbus_read-Link_example :
    Returns
      (HasRead taken sent (reply answer) [] (request dom) (header_bytes (header 2 2)))
      (xenbus_read (serve answer) 1039 16 waiting)
xenbus_read-Link_example =
    xenbus_read-Link (serve answer) taken sent (reply answer) (serve-IsDaemon answer) []
      (request dom) (header_bytes (header 2 2)) (b'o' ∷ b'k' ∷ []) waiting 1039 waiting-Link refl
      (omega arith)

xenstore_read-answered_example :
    Returns
      (λ (x : Option (List ℕ) × (Page × State)).
        (x.0 ≡ some (b'o' ∷ b'k' ∷ 0 ∷ 9 ∷ []))
        × Link taken sent (reply answer) answer (request dom) x.1)
      (xenstore_read (serve answer) 6000 (1 ∷ 2 ∷ 3 ∷ 9 ∷ []) (dom ++ 0 ∷ 1 ∷ []) start)
xenstore_read-answered_example =
    xenstore_read-answered (serve answer) taken sent (reply answer) (serve-IsDaemon answer)
      (1 ∷ 2 ∷ 3 ∷ 9 ∷ []) dom (1 ∷ []) (b'o' ∷ b'k' ∷ []) [] (header 2 2) [] [] start 6000
      (start-Link answer) dom-IsText (omega arith)
      (record { type = omega arith; req_id = omega arith; tx_id = omega arith; len = omega arith })
      refl refl (omega arith) refl (omega arith)

-- the error ENOENT, XS_ERROR being 16
abbrev refusal : List ℕ
refusal = header_bytes (header 16 7) ++ (b'E' ∷ b'N' ∷ b'O' ∷ b'E' ∷ b'N' ∷ b'T' ∷ 0 ∷ [])

xenstore_read-other_type_example :
    Returns
      (λ (x : Option (List ℕ) × (Page × State)).
        (x.0 ≡ none)
        × Link taken sent (reply refusal) (header_bytes (header 16 7)) (request dom) x.1)
      (xenstore_read (serve refusal) 6000 [] (dom ++ 0 ∷ []) start)
xenstore_read-other_type_example =
    xenstore_read-other_type (serve refusal) taken sent (reply refusal) (serve-IsDaemon refusal) []
      dom [] (b'E' ∷ b'N' ∷ b'O' ∷ b'E' ∷ b'N' ∷ b'T' ∷ 0 ∷ []) [] (header 16 7) [] [] start 6000
      (start-Link refusal) dom-IsText (omega arith)
      (record { type = omega arith; req_id = omega arith; tx_id = omega arith; len = omega arith })
      refl refl (omega arith) (λ e. omega (arith, e))

abbrev long : List ℕ
long = replicate 5000 1

abbrev flood : List ℕ
flood = header_bytes (header 2 5000) ++ long
