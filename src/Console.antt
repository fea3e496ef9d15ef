-- ===== src/Console.antt =====
-- common/console.c: the registered callbacks, vprintk(), and the writer of the PV console's ring.
pub mod Queue
pub mod Input
pub mod Print
pub mod Write
use xtf.Base.{
  ℕ, zero, suc, ◌+◌, ◌-◌, ◌%◌, ◌^◌, ltb, if◌then◌else◌, Bool, true, List, [], ◌∷◌, ◌++◌, Option,
  some, none, length, set, take, drop, leb, get_elem?, not, ◌||◌, ◌==◌, replicate,
}
use mathlib.Core.Option
use xtf.Base.Int.{ℤ, pos, negsuc, ltb_ℤ}
use xtf.Base.Run.{Run, out_of_fuel, ok, or_fault, ◌>>=◌}
use xtf.Printf.Number.{Flags, no_flags}
use xtf.Printf.Pointer.{ArchHook}
use xtf.Printf.Parse.{Arg}
use xtf.Printf.Format.{vsnprintf_internal}

-- `output_fns`, whose entries below `nr_cons_cb` are the list; a function is told apart by its address.
-- `none` is a panic.
unfoldable pub register_console_callback : ℕ → List ℕ → Option (List ℕ)
register_console_callback fn output_fns =
    if ltb (length output_fns) 3 then some (output_fns ++ fn ∷ []) else none

-- a call of a callback: its address, and what it is given
pub record Call : Type 0 where
  pub callback : ℕ
  pub buf : List ℕ
  pub len : ℕ

-- `for ( i = 0; i < nr_cons_cb; ++i ) output_fns[i](buf, rc)`
abbrev pub call_all : List ℕ → List ℕ → ℕ → List Call
call_all [] buf len = []
call_all (fn ∷ output_fns) buf len =
    record { callback = fn; buf = buf; len = len } ∷ call_all output_fns buf len

-- an `int` as a `size_t`
abbrev pub to_size : ℤ → ℕ
to_size (pos n) = n
to_size (negsuc n) = 2 ^ 64 - (n + 1)

-- behind the call of vsnprintf_internal(); `rc > (int)sizeof(buf)` compares signed numbers.
abbrev pub send : List ℕ → ℤ × List ℕ → Option (List Call)
send output_fns (rc, buf) =
    if ltb_ℤ (pos 2048) rc then none else some (call_all output_fns buf (to_size rc))

-- The calls that vprintk() makes, for the contents `buf` that the static buffer has from before;
-- `none` is a panic.
unfoldable pub vprintk :
    ArchHook → (buf output_fns : List ℕ) → List ℕ → List Arg → Run (Option (List Call))
vprintk arch buf output_fns fmt args =
    vsnprintf_internal arch buf 2048 fmt args (record no_flags { lf_to_crlf = true }) >>= λ result.
    ok (send output_fns result)

-- the part of `xencons_interface_t` that is for output; an index is below 2^32
pub record OutRing : Type 0 where
  pub out : List ℕ
  pub out_cons : ℕ
  pub out_prod : ℕ

-- `prod - cons`, which wraps around
abbrev pub used : ℕ → ℕ → ℕ
used prod cons = (prod + 2 ^ 32 - cons) % 2 ^ 32

-- `pv_ring->out[prod++ & (sizeof(pv_ring->out) - 1)] = c`
unfoldable pub put_byte : ℕ → OutRing → OutRing
put_byte c ring = record ring {
  out = set ring.out (ring.out_prod % 2048) c;
  out_prod = (ring.out_prod + 1) % 2 ^ 32;
}

-- The loop over the rest of `buf`, with `s` and the ring that it leaves. The consumer's index is the
-- one that was read before; the producer's is stored at the end.
unfoldable pub write_loop : List ℕ → OutRing → ℕ × OutRing
write_loop [] ring = (0, ring)
write_loop (c ∷ buf) ring =
    let rest = write_loop buf (put_byte c ring) in
    if ltb (used ring.out_prod ring.out_cons) 2048 then (rest.0 + 1, rest.1) else (0, ring)

unfoldable pub pv_console_write_some : List ℕ → OutRing → ℕ × OutRing
pv_console_write_some buf ring = write_loop buf ring

-- xenconsoled with its own state `D`. It runs at the notification and at each yield.
module _ {D : Type 0} (xenconsoled : OutRing × D → OutRing × D) where
  -- `while ( ACCESS_ONCE(pv_ring->out_cons) == cons )`
  unfoldable pub wait_for_space : (rounds cons : ℕ) → OutRing × D → Run (OutRing × D)
  wait_for_space zero cons s = if s.0.out_cons == cons then out_of_fuel else ok s
  wait_for_space (suc rounds) cons s =
      let rest = wait_for_space rounds cons (xenconsoled s) in
      if s.0.out_cons == cons then rest else ok s

  -- `while ( ACCESS_ONCE(pv_ring->out_cons) != pv_ring->out_prod )`
  unfoldable pub wait_for_consumer : (rounds : ℕ) → OutRing × D → Run (OutRing × D)
  wait_for_consumer zero s = if s.0.out_cons == s.0.out_prod then ok s else out_of_fuel
  wait_for_consumer (suc rounds) s =
      let rest = wait_for_consumer rounds (xenconsoled s) in
      if s.0.out_cons == s.0.out_prod then ok s else rest

  -- The outer loop, for the `cons` and the `written` of its round. Each round assigns `written` anew.
  unfoldable pub console_rounds :
      (rounds cons : ℕ) → (buf : List ℕ) → (written : ℕ) → OutRing × D → Run (OutRing × D)
  console_rounds zero cons buf written s = out_of_fuel
  console_rounds (suc rounds) cons buf written (ring, d) =
      let (written', ring') = pv_console_write_some (drop written buf) ring in
      let s' = xenconsoled (ring', d) in
      let again =
        wait_for_space rounds cons s' >>= λ t. console_rounds rounds cons buf written' t in
      if ltb written' (length buf) then again else wait_for_consumer rounds s'

  unfoldable pub pv_console_write : (rounds : ℕ) → List ℕ → OutRing × D → Run (OutRing × D)
  pv_console_write rounds buf s = console_rounds rounds s.0.out_cons buf 0 s

-- init_pv_console(), by the address of pv_console_write(): the ring, the port and the callbacks; `none`
-- is a panic. The bitmap of events has 4096 bits.
unfoldable pub init_pv_console : (fn ring port : ℕ) → List ℕ → Option (ℕ × (ℕ × List ℕ))
init_pv_console fn ring port output_fns =
    if leb 4096 port
    then none
    else Option.map (λ fns. (ring, (port, fns))) (register_console_callback fn output_fns)

-- the part of `xencons_interface_t` that is for input
pub record InRing : Type 0 where
  pub input : List ℕ
  pub in_cons : ℕ
  pub in_prod : ℕ

-- The bits and the rings that the tests of the waiting loop see, one after the other, and what the
-- loads behind the loop see; `none` is a loop that still waits.
unfoldable pub wait_for_input : List (Bool × InRing) → Option InRing
wait_for_input [] = none
wait_for_input ((pending, ring) ∷ later) =
    let rest = wait_for_input later in
    if not pending || ring.in_cons == ring.in_prod then rest else some ring

-- `cons++`
abbrev pub consume : InRing → InRing
consume ring = record ring { in_cons = (ring.in_cons + 1) % 2 ^ 32 }

-- the byte in front of what a round read and the ring that it leaves
abbrev pub prepend : ℕ → List ℕ × InRing → List ℕ × InRing
prepend c (buf, ring) = (c ∷ buf, ring)

-- The loop with room for `len` bytes left, and what it writes to `buf`.
unfoldable pub read_loop : (len : ℕ) → InRing → Run (List ℕ × InRing)
read_loop zero ring = ok ([], ring)
read_loop (suc len) ring =
    let rest = read_loop len (consume ring) in
    let byte : Run (List ℕ × InRing) = do
      c ← or_fault (get_elem? ring.input (ring.in_cons % 1024))
      r ← rest
      ok (prepend c r)
    in if ltb 0 (used ring.in_prod ring.in_cons) then byte else ok ([], ring)

-- what follows the waiting loop
abbrev pub then_read : (len : ℕ) → Option InRing → Option (Run (List ℕ × InRing))
then_read len none = none
then_read len (some ring) = some (read_loop len ring)

unfoldable pub pv_console_read_some :
    (len : ℕ) → List (Bool × InRing) → Option (Run (List ℕ × InRing))
pv_console_read_some len seen = then_read len (wait_for_input seen)
