-- ===== src/Suite/Argo/Calls.antt =====
-- How tests/argo judges each call.
use xtf.Base.{
  ℕ, ◌%◌, ◌≡◌, refl, ◌==◌, not, ◌&&◌, Bool, true, false, if◌then◌else◌, List, arith, Bool-cases,
  inl, inr,
}
use xtf.Base.Int.{ℤ, pos, negsuc, pos_part, ltb_ℤ}
use xtf.Report.{Message}
use xtf.Suite.{Test, ◌>>=◌, return, run}
use xtf.Suite.Effect.{Effect, bind, of_run, of_return, of_failure, same, grade}
use xtf.Suite.Argo.{
  test_notify_for_one_ring, test_register_ring, test_unregister_ring, test_sendv, test_ring_size,
}
use xtf.Suite.Argo.Abi.{Addr, RegisterRing, World, Xen, is_error, is_zero, fails}

-- A call that is as it has to be returns 0; else it returns -1, and the test fails.
abbrev pub Judged : {W : Type 0} → Test W ℤ → W → Bool → W → Type 0
Judged f w good w' = Effect f w (if good then pos 0 else negsuc 0) w' (grade good)

pub rejected : {W : Type 0} (m : Message) (w : W) → Effect (fails m) w (negsuc 0) w 4
unfolding fails
rejected m w = same (bind _ (of_failure m w) (of_return _ w)) refl refl (omega arith)

pub after_run :
    {W A : Type 0} (f : W → A × W) (k : A → Test W ℤ) (w : W) (good : Bool)
    → Judged (k (f w).0) (f w).1 good (f w).1
    → Judged (run f >>= k) w good (f w).1
after_run f k w good p = same (bind k (of_run f w) p) refl refl (omega arith)

pass_or :
    {W : Type 0} (good : Bool) {g : Test W ℤ} {w : W}
    → Effect g w (negsuc 0) w 4
    → Judged (if good then return (pos 0) else g) w good w
pass_or true p = of_return _ _
pass_or false p = p

pass_unless :
    {W : Type 0} (bad : Bool) {g : Test W ℤ} {w : W}
    → Effect g w (negsuc 0) w 4
    → Judged (if bad then g else return (pos 0)) w (not bad) w
pass_unless true p = p
pass_unless false p = of_return _ _

either :
    {W : Type 0} (c : Bool) {f g : Test W ℤ} {w : W}
    → Effect f w (negsuc 0) w 4
    → Effect g w (negsuc 0) w 4
    → Effect (if c then f else g) w (negsuc 0) w 4
either true p q = p
either false p q = q

unregistered :
    {W : Type 0} (exists zero missing : Bool) (m1 m2 m3 : Message) (w : W)
    → (zero ≡ true → missing ≡ false)
    → Judged
        (if zero
          then (if exists then return (pos 0) else fails m1)
          else if missing
          then (if not exists then return (pos 0) else fails m2)
          else fails m3)
        w
        (if exists then zero else missing)
        w
unregistered true true missing m1 m2 m3 w h = of_return _ w
unregistered false true missing m1 m2 m3 w h = rw (h refl) (rejected m1 w)
unregistered true false true m1 m2 m3 w h = rejected m2 w
unregistered true false false m1 m2 m3 w h = rejected m3 w
unregistered false false true m1 m2 m3 w h = of_return _ w
unregistered false false false m1 m2 m3 w h = rejected m3 w

no_error : (rc : ℤ) → is_zero rc ≡ true → is_error 2 rc ≡ false
no_error (pos n) h = refl
no_error (negsuc n) h = absurd (ground (arith, h))

-- what a notification has to say of a ring
abbrev pub says : (exists : Bool) → ℕ → Bool
says true flags = flags % 2 == 1
says false flags = flags == 0

notified :
    {W : Type 0} (exists zero : Bool) (flags : ℕ) (m1 m2 m3 : Message) (w : W)
    → Judged
        (if not zero
          then fails m1
          else if not exists
          then (if not (flags == 0) then fails m2 else return (pos 0))
          else if not (flags % 2 == 1)
          then fails m3
          else return (pos 0))
        w
        (zero && says exists flags)
        w
notified exists false flags m1 m2 m3 w = rejected m1 w
notified true true flags m1 m2 m3 w = elim (Bool-cases (flags % 2 == 1)) [
  | inl e ↦ rw e (of_return _ w)
  | inr e ↦ rw e (rejected m3 w)
]
notified false true flags m1 m2 m3 w = elim (Bool-cases (flags == 0)) [
  | inl e ↦ rw e (of_return _ w)
  | inr e ↦ rw e (rejected m2 w)
]

not_negative : (m : ℕ) → ltb_ℤ (pos m) (pos 0) ≡ false
not_negative m = ground arith

negative : (m : ℕ) → ltb_ℤ (negsuc m) (pos 0) ≡ true
negative m = ground arith

module _ {W : Type 0} (xen : Xen W) where
  abbrev reg : (domid aport len : ℕ) → RegisterRing
  reg domid aport len = record { reg_aport = aport; partner_id = domid; reg_len = len }

  -- the answers
  abbrev pub registering : List ℕ → ℕ → ℕ → World W → ℤ × World W
  registering gfns domid aport = xen.register_ring (reg domid aport test_ring_size) gfns 1

  abbrev pub unregistering : ℕ → ℕ → World W → ℤ × World W
  unregistering domid aport = xen.unregister_ring (reg domid aport 0)

  abbrev pub notifying : ℕ → ℕ → World W → (ℤ × ℕ) × World W
  notifying domid aport = xen.notify (record { domain_id = domid; aport = aport })

  pub test_register_ring-Judged :
      (gfns : List ℕ) (domid aport : ℕ) (s : World W)
      → Judged
          (test_register_ring xen gfns domid aport)
          s
          (is_zero (registering gfns domid aport s).0)
          (registering gfns domid aport s).1
  unfolding test_register_ring
  test_register_ring-Judged gfns domid aport s =
      let rc = (registering gfns domid aport s).0 in
      after_run (registering gfns domid aport) _ s _ (
        pass_or (is_zero rc) (
          either (is_error 19 rc) (rejected _ _)
            (either (is_error 14 rc) (rejected _ _) (rejected _ _))))

  pub test_unregister_ring-Judged :
      (domid aport : ℕ) (exists : Bool) (s : World W)
      → Judged
          (test_unregister_ring xen domid aport exists)
          s
          (if exists
            then is_zero (unregistering domid aport s).0
            else is_error 2 (unregistering domid aport s).0)
          (unregistering domid aport s).1
  unfolding test_unregister_ring
  test_unregister_ring-Judged domid aport exists s =
      let rc = (unregistering domid aport s).0 in
      after_run (unregistering domid aport) _ s _
        (unregistered exists (is_zero rc) (is_error 2 rc) _ _ _ _ (no_error rc))

  pub test_notify_for_one_ring-Judged :
      (domid aport : ℕ) (exists : Bool) (s : World W)
      → Judged
          (test_notify_for_one_ring xen domid aport exists)
          s
          (is_zero (notifying domid aport s).0.0 && says exists (notifying domid aport s).0.1)
          (notifying domid aport s).1
  unfolding test_notify_for_one_ring
  test_notify_for_one_ring-Judged domid aport exists s =
      let (rc, flags) = (notifying domid aport s).0 in
      after_run (notifying domid aport) _ s _ (notified exists (is_zero rc) flags _ _ _ _)

  -- Xen has sent this many bytes.
  abbrev pub has_sent : ℕ → ℤ → Bool
  has_sent n (pos m) = m == n
  has_sent n (negsuc m) = false

  sent :
      (n : ℕ) (rc : ℤ) (m1 m2 : Message) (s : World W)
      → Judged
          (if ltb_ℤ rc (pos 0)
            then fails m1
            else if not (pos_part rc == n)
            then fails m2
            else return (pos 0))
          s
          (has_sent n rc)
          s
  sent n (pos m) m1 m2 s =
      rw (not_negative m)
        (elim (Bool-cases (m == n)) [ inl e ↦ rw e (of_return _ s) | inr e ↦ rw e (rejected m2 s) ])
  sent n (negsuc m) m1 m2 s = rw (negative m) (rejected m1 s)

  pub test_sendv-Judged :
      (src dst : Addr) (text : List ℕ) (msg_len msg_type : ℕ) (s : World W)
      → Judged
          (test_sendv xen src dst text msg_len msg_type)
          s
          (has_sent msg_len (xen.sendv src dst text msg_type s).0)
          (xen.sendv src dst text msg_type s).1
  unfolding test_sendv
  test_sendv-Judged src dst text msg_len msg_type s =
      after_run (xen.sendv src dst text msg_type) _ s _
        (sent msg_len (xen.sendv src dst text msg_type s).0 _ _ _)
