-- ===== src/Suite/Argo/Accepted.antt =====
-- The verdict of tests/argo on a Xen that keeps rings as it has to.
use xtf.Base.{
  ℕ, ◌+◌, ◌%◌, ◌^◌, ◌≡◌, refl, ap, max, ◌==◌, ◌&&◌, Bool, true, false, if◌then◌else◌, List, [], ◌∷◌,
  ◌++◌, length, arith,
}
use xtf.Base.Int.{ℤ, pos, negsuc, ltb_ℤ}
use xtf.Report.{Report, value}
use xtf.Suite.{Test, return}
use xtf.Suite.Effect.{
  Effect, bind, of_run, of_answer, of_return, of_success, same, grade, of_Effect,
}
use xtf.Suite.Argo.{
  any_fails, probe_for_argo, test_notify_for_one_ring, test_register_ring, test_unregister_ring,
  test_sendv, before_any, one_ring, one_message, run_calls, argo_main, test_aport, own, simple_text,
  msg_type,
}
use xtf.Suite.Argo.Abi.{Ring, Xen, is_zero, is_error, roundup}
use xtf.Suite.Argo.Buffer.{
  zeros, clear_test_ring, inspect_ring_after_first_single_sendv, header_size,
}
use xtf.Suite.Argo.Calls.{
  Judged, registering, unregistering, notifying, test_register_ring-Judged,
  test_unregister_ring-Judged, test_notify_for_one_ring-Judged, test_sendv-Judged,
}
use xtf.Suite.Argo.Inspect.{inspect-Judged, as_sent}

-- the ring behind a first message from and to the domain `domid`
abbrev pub filled : (domid : ℕ) (text : List ℕ) (type : ℕ) (rest : List ℕ) → Ring
filled domid text type rest = record {
  rx_ptr = 0;
  tx_ptr = roundup (header_size + length text);
  len = length text + header_size;
  source_domain_id = domid;
  source_aport = test_aport;
  source_pad = 0;
  message_type = type;
  payload = text ++ rest;
}

-- Argo, for the ring of this domain at port 1, in a state where it is there and in one where it is not. A ring of
-- one byte is refused; a ring that is there can be removed and one that is not can be added; a
-- notification tells which; and a message is copied to a ring that is there.
pub record KeepsRings {W : Type 0} (xen : Xen W) (gfns : List ℕ) (domid : ℕ) (absent present : W)
    : Type 0 where
  pub refuses :
      (ring : Ring)
      → xen.register_ring
          (record { reg_aport = 1; partner_id = domid; reg_len = 1 })
          []
          0
          (absent, ring)
        ≡ (negsuc 21, (absent, ring))
  pub adds :
      (ring : Ring)
      → registering xen gfns domid test_aport (absent, ring) ≡ (pos 0, (present, ring))
  pub removes :
      (ring : Ring) → unregistering xen domid test_aport (present, ring) ≡ (pos 0, (absent, ring))
  pub misses :
      (ring : Ring) → unregistering xen domid test_aport (absent, ring) ≡ (negsuc 1, (absent, ring))
  pub flags : ℕ
  pub exists_flag : flags % 2 ≡ 1
  pub tells :
      (ring : Ring)
      → notifying xen domid test_aport (present, ring) ≡ ((pos 0, flags), (present, ring))
  pub denies :
      (ring : Ring) → notifying xen domid test_aport (absent, ring) ≡ ((pos 0, 0), (absent, ring))
  pub rest : List ℕ
  pub sends :
      (text : List ℕ) (type : ℕ)
      → xen.sendv (own domid) (own domid) text type (present, zeros)
        ≡ (pos (length text), (present, filled domid text type rest))

-- A call that is as it has to be, as a part of the condition of an `if`.
abbrev Passes : {W : Type 0} → Test W ℤ → W → W → Type 0
Passes f w w' = Effect f w (pos 0) w' 0

passes :
    {W : Type 0} {f : Test W ℤ} {w u v : W} {good : Bool}
    → Judged f w good u
    → good ≡ true
    → u ≡ v
    → Passes f w v
passes {good} p e h = same p (ap (λ b. if b then pos 0 else negsuc 0) e) h (ap grade e)

none_fails : {W : Type 0} (w : W) → Effect (any_fails []) w false w 0
unfolding any_fails
none_fails w = of_return false w

next :
    {W : Type 0} {f : Test W ℤ} (fs : List (Test W ℤ)) {w u v : W}
    → Passes f w u
    → Effect (any_fails fs) u false v 0
    → Effect (any_fails (f ∷ fs)) w false v 0
unfolding any_fails
next fs p q = bind (λ rc. if is_zero rc then any_fails fs else return true) p q

nonnegative : (n : ℕ) → ltb_ℤ (pos n) (pos 0) ≡ false
nonnegative n = ground arith

module _ {W : Type 0} (xen : Xen W) (gfns : List ℕ) (domid : ℕ) (absent present : W)
    (law : KeepsRings xen gfns domid absent present) where
  registers :
      (ring : Ring)
      → Passes (test_register_ring xen gfns domid test_aport) (absent, ring) (present, ring)
  registers ring =
      passes (test_register_ring-Judged xen gfns domid test_aport (absent, ring))
        (ap (λ x. is_zero x.0) (law.adds ring)) (ap (λ x. x.1) (law.adds ring))

  unregisters :
      (ring : Ring)
      → Passes (test_unregister_ring xen domid test_aport true) (present, ring) (absent, ring)
  unregisters ring =
      passes (test_unregister_ring-Judged xen domid test_aport true (present, ring))
        (ap (λ x. is_zero x.0) (law.removes ring)) (ap (λ x. x.1) (law.removes ring))

  misses :
      (ring : Ring)
      → Passes (test_unregister_ring xen domid test_aport false) (absent, ring) (absent, ring)
  misses ring =
      passes (test_unregister_ring-Judged xen domid test_aport false (absent, ring))
        (ap (λ x. is_error 2 x.0) (law.misses ring)) (ap (λ x. x.1) (law.misses ring))

  denies :
      (ring : Ring)
      → Passes (test_notify_for_one_ring xen domid test_aport false) (absent, ring) (absent, ring)
  denies ring =
      passes (test_notify_for_one_ring-Judged xen domid test_aport false (absent, ring))
        (ap (λ x. is_zero x.0.0 && (x.0.1 == 0)) (law.denies ring))
        (ap (λ x. x.1) (law.denies ring))

  tells :
      (ring : Ring)
      → Passes (test_notify_for_one_ring xen domid test_aport true) (present, ring) (present, ring)
  tells ring =
      passes (test_notify_for_one_ring-Judged xen domid test_aport true (present, ring))
        (rw (law.tells ring) (rw law.exists_flag refl)) (ap (λ x. x.1) (law.tells ring))

  sends :
      Passes
        (test_sendv xen (own domid) (own domid) simple_text (length simple_text) msg_type)
        (present, zeros)
        (present, filled domid simple_text msg_type law.rest)
  sends =
      passes
        (test_sendv-Judged xen (own domid) (own domid) simple_text (length simple_text) msg_type
          (present, zeros))
        (rw (law.sends simple_text msg_type) refl) (ap (λ x. x.1) (law.sends simple_text msg_type))

  inspects :
      Passes
        (inspect_ring_after_first_single_sendv domid test_aport simple_text
          (length simple_text)
          msg_type)
        (present, filled domid simple_text msg_type law.rest)
        (present, filled domid simple_text msg_type law.rest)
  inspects =
      passes
        {good = as_sent (filled domid simple_text msg_type law.rest) domid test_aport simple_text
          msg_type}
        (inspect-Judged domid test_aport simple_text msg_type _) (ground arith) refl

  clears : (w : W) (ring : Ring) → Effect clear_test_ring (w, ring) tt (w, zeros) 0
  unfolding clear_test_ring
  clears w ring = of_run _ (w, ring)

  runs :
      (ring : Ring)
      → Effect
          (run_calls xen gfns domid)
          (absent, ring)
          tt
          (absent, filled domid simple_text msg_type law.rest)
          1
  unfolding run_calls before_any one_ring one_message
  runs ring =
      same
        (bind _ (next _ (denies ring) (next _ (misses ring) (none_fails _))) (
          bind _ (clears absent ring) (
            bind _
              (next _ (registers zeros) (
                next _ (tells zeros) (
                  next _ (unregisters zeros)
                    (next _ (denies zeros) (next _ (misses zeros) (none_fails _))))))
              (bind _ (clears absent zeros) (
                bind _
                  (next _ (registers zeros) (
                    next _ sends (
                      next _ inspects (
                        next _ (tells _)
                          (next _ (unregisters _) (next _ (misses _) (none_fails _)))))))
                  (of_success _ _))))))
        refl refl (omega arith)

  probes : (ring : Ring) → Passes (probe_for_argo xen domid) (absent, ring) (absent, ring)
  unfolding probe_for_argo
  probes ring = bind _ (of_answer _ (law.refuses ring)) (of_return (pos 0) _)

  main_lem :
      (ring : Ring) (own_domid : ℕ)
      → own_domid % 2 ^ 16 ≡ domid
      → Effect
          (argo_main xen gfns (pos own_domid))
          (absent, ring)
          tt
          (absent, filled domid simple_text msg_type law.rest)
          1
  unfolding argo_main
  main_lem ring own_domid e =
      rw (nonnegative own_domid, e)
        (same (bind _ (probes ring) (runs ring)) refl refl (omega arith))

  -- On a Xen that keeps the ring of the domain as KeepsRings says, where it is not there at first, and with a
  -- domain ID that is found, the test succeeds: its status is raised to that of a success and no further. Behind
  -- it the ring is gone, and the buffer has the message.
  pub argo_main_lem :
      (ring : Ring) (own_domid : ℕ) (r : Report)
      → own_domid % 2 ^ 16 ≡ domid
      → ((argo_main xen gfns (pos own_domid) ((absent, ring), r)).1.0
          ≡ (absent, filled domid simple_text msg_type law.rest))
        × (value (argo_main xen gfns (pos own_domid) ((absent, ring), r)).1.1.status
            ≡ max 1 (value r.status))
  argo_main_lem ring own_domid r e = of_Effect (main_lem ring own_domid e) r
