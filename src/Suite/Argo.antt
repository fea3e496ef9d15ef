-- ===== src/Suite/Argo.antt =====
-- tests/argo/main.c. The state is that of Xen, with the ring buffer, which Xen writes to.
pub mod Abi
pub mod Buffer
pub mod Calls
pub mod Inspect
pub mod Accepted
use xtf.Base.{
  ℕ, suc, ◌+◌, ◌-◌, ◌*◌, ◌/◌, ◌%◌, ◌^◌, ◌==◌, not, ◌&&◌, ltb, Bool, true, false, if◌then◌else◌,
  List, [], ◌∷◌, none, some, length,
}
use xtf.Base.Int.{ℤ, pos, negsuc, pos_part, ltb_ℤ}
use xtf.Base.Run.{Run, ok, fault, out_of_fuel}
use xtf.Base.Text.{codes}
use xtf.Printf.Parse.{Arg, int}
use xtf.CString.{memcmp}
use xtf.Report.{Message}
use xtf.Suite.{Test, ◌>>=◌, ◌>>◌, return, run, success, skip, error, failure, message}
use xtf.Suite.Argo.Abi.{
  Ring, Addr, RegisterRing, World, Xen, is_error, is_zero, minus_one, arg, fails, skips, roundup,
}
use xtf.Suite.Argo.Buffer.{
  header_size, verify, compares_equal, inspect, inspect_ring_after_first_single_sendv, zeros,
  clear_test_ring,
}

abbrev pub test_ring_npages : ℕ
test_ring_npages = 32

-- `TEST_RING_SIZE(TEST_RING_NPAGES)`
abbrev pub test_ring_size : ℕ
test_ring_size = roundup (4096 * test_ring_npages - 80)

-- the condition of an `if ( a || b || ... )` of calls
unfoldable pub any_fails : {W : Type 0} → List (Test W ℤ) → Test W Bool
any_fails [] = return false
any_fails (f ∷ fs) = do
  rc ← f
  let others = any_fails fs
  if is_zero rc then others else return true

abbrev pub test_aport : ℕ
test_aport = 1

abbrev pub simple_text : List ℕ
simple_text = codes "A simple thing to send\n"

abbrev pub msg_type : ℕ
msg_type = 0x12345678

abbrev pub own : ℕ → Addr
own own_domid = record { domain_id = own_domid; aport = test_aport }

module _ {W : Type 0} (xen : Xen W) where
  unfoldable pub probe_for_argo : ℕ → Test (World W) ℤ
  probe_for_argo own_domid = do
    rc ←
        run (xen.register_ring (record { reg_aport = 1; partner_id = own_domid; reg_len = 1 }) [] 0)
    if is_error 22 rc
        then return (pos 0)
        else if is_error 38 rc
        then skips ((message "Skip: Argo support has not been enabled in this hypervisor\n" []))
        else if is_error 95 rc
        then skips ((message "Skip: Argo is not enabled at runtime for this hypervisor\n" []))
        else if is_error 19 rc
        then skips ((message "Skip: Argo is not enabled for this domain\n" []))
        else if is_error 1 rc
        then fails ((message "Fail: Ring registration by this domain is not permitted\n" []))
        else if is_zero rc
        then fails ((message "Fail: An invalid ring register op was not rejected\n" []))
        else fails
            ((message "Fail: Unknown error %d for invalid ring registration\n" (arg rc ∷ [])))

  unfoldable pub test_notify_for_one_ring : (query_domid query_port : ℕ) → Bool → Test (World W) ℤ
  test_notify_for_one_ring query_domid query_port exists = do
    (rc, flags) ← run (xen.notify (record { domain_id = query_domid; aport = query_port }))
    if not (is_zero rc)
        then fails ((message "Fail: Unexpected error code %d in notify test\n" (arg rc ∷ [])))
        else if not exists
        then (if not (flags == 0)
            then fails ((message "Fail: Non-existent ring reported as existing\n" []))
            else return (pos 0))
        else if not (flags % 2 == 1)
        then fails ((message "Fail: Ring not reported as existing\n" []))
        else return (pos 0)

  -- `gfns` has a page frame number for each page of the buffer.
  unfoldable pub test_register_ring : (gfns : List ℕ) (own_domid aport : ℕ) → Test (World W) ℤ
  test_register_ring gfns own_domid aport = do
    rc ← run (
        xen.register_ring
          (record { reg_aport = aport; partner_id = own_domid; reg_len = test_ring_size }) gfns 1)
    if is_zero rc
        then return (pos 0)
        else if is_error 19 rc
        then fails ((message "Fail: Argo is not enabled for this domain\n" []))
        else if is_error 14 rc
        then fails ((message "Fail: Memory fault performing register ring test\n" []))
        else fails
            ((message "Fail: Unexpected error code %d in register ring test\n" (arg rc ∷ [])))

  unfoldable pub test_unregister_ring : (partner_domid aport : ℕ) → Bool → Test (World W) ℤ
  test_unregister_ring partner_domid aport exists = do
    rc ← run (
        xen.unregister_ring (record { reg_aport = aport; partner_id = partner_domid; reg_len = 0 }))
    if is_zero rc
        then (if exists
            then return (pos 0)
            else fails ((message "Fail: Unexpected success unregistering non-existent ring\n" [])))
        else if is_error 2 rc
        then (if not exists
            then return (pos 0)
            else fails ((message "Fail: Unexpected ring not found when unregistering \n" [])))
        else fails
            ((message "Fail: Unexpected error code %d in unregister ring test\n" (arg rc ∷ [])))

  unfoldable pub test_sendv : (src dst : Addr) → List ℕ → (msg_len msg_type : ℕ) → Test (World W) ℤ
  test_sendv src dst msg_text msg_len msg_type = do
    rc ← run (xen.sendv src dst msg_text msg_type)
    if ltb_ℤ rc (pos 0)
        then fails ((message "Fail: Unexpected error code %d in sendv test\n" (arg rc ∷ [])))
        else if not (pos_part rc == msg_len)
        then fails
            ((message "Fail: Unexpected message size %d written in sendv test\n" (arg rc ∷ [])))
        else return (pos 0)

  -- the calls of the three `if`s
  unfoldable pub before_any : ℕ → List (Test (World W) ℤ)
  before_any own_domid =
      test_notify_for_one_ring own_domid test_aport false
      ∷ test_unregister_ring own_domid test_aport false
      ∷ []

  unfoldable pub one_ring : List ℕ → ℕ → List (Test (World W) ℤ)
  one_ring gfns own_domid =
      test_register_ring gfns own_domid test_aport
      ∷ test_notify_for_one_ring own_domid test_aport true
      ∷ test_unregister_ring own_domid test_aport true
      ∷ test_notify_for_one_ring own_domid test_aport false
      ∷ test_unregister_ring own_domid test_aport false
      ∷ []

  unfoldable pub one_message : List ℕ → ℕ → List (Test (World W) ℤ)
  one_message gfns own_domid =
      test_register_ring gfns own_domid test_aport
      ∷ test_sendv (own own_domid) (own own_domid) simple_text (length simple_text) msg_type
      ∷ inspect_ring_after_first_single_sendv own_domid test_aport simple_text (length simple_text)
          msg_type
      ∷ test_notify_for_one_ring own_domid test_aport true
      ∷ test_unregister_ring own_domid test_aport true
      ∷ test_unregister_ring own_domid test_aport false
      ∷ []

  -- behind probe_for_argo()
  unfoldable pub run_calls : List ℕ → ℕ → Test (World W) (Unit {0})
  run_calls gfns own_domid = do
    failed ← any_fails (before_any own_domid)
    let last : Test (World W) (Unit {0}) = do
      clear_test_ring
      failed ← any_fails (one_message gfns own_domid)
      if failed then return tt else success none
    let second : Test (World W) (Unit {0}) = do
      clear_test_ring
      failed ← any_fails (one_ring gfns own_domid)
      if failed then return tt else last
    if failed then return tt else second

  -- `own_domid` is what xtf_get_domid() returns.
  unfoldable pub argo_main : List ℕ → ℤ → Test (World W) (Unit {0})
  argo_main gfns own_domid =
      let domid = pos_part own_domid % 2 ^ 16 in
      let probed : Test (World W) (Unit {0}) = do
        rc ← probe_for_argo domid
        if is_zero rc then run_calls gfns domid else return tt
      in if ltb_ℤ own_domid (pos 0)
        then error (message "Error: could not determine domid of the test domain\n" [])
        else probed
