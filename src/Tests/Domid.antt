-- ===== src/Tests/Domid.antt =====
-- common/lib.c at concrete inputs.
use xtf.Base.{ℕ, ◌≡◌, refl, ◌==◌, if◌then◌else◌, false, List, [], ◌∷◌, none, drop, inr, arith}
use xtf.Base.Int.{ℤ, pos, negsuc}
use xtf.Printf.Number.{digit}
use xtf.Printf.Number.Digits.{read_number, digit_value, IsDigit}
use xtf.Printf.Number.Spec.{IsNumeral}
use xtf.Domid.{Xen, evtchn_get_domid}
use xtf.Domid.Ports.{TracksPorts, evtchn_get_domid-ports}

abbrev answer : ℕ → ℤ
answer version = if version == 15 then pos 0 else negsuc 12

-- A Xen whose state is the list of the allocated ports, and which fails to report the status of one.
abbrev xen : Xen (List ℕ)
xen = record {
  sysctl = λ version w. (answer version, w);
  alloc_unbound = λ w. ((pos 0, 7), 7 ∷ w);
  port_status = λ port w. ((negsuc 21, 0), w);
  close = λ port w. drop 1 w;
  arch_get_domid = λ w. (negsuc 0, w);
  xenstore_init = λ w. (pos 0, w);
  xenstore_read = λ key w. (none, w);
}

xen-TracksPorts : TracksPorts xen (λ w. w)
xen-TracksPorts = record {
  allocates = λ w e. refl;
  refuses = λ w e. absurd (ground arith);
  looks = λ port w. refl;
  closes = λ port w others e. rw e refl;
}

evtchn_get_domid-ports_example : (evtchn_get_domid xen (3 ∷ [])).1 ≡ 3 ∷ []
evtchn_get_domid-ports_example = evtchn_get_domid-ports xen (λ w. w) xen-TracksPorts (3 ∷ [])

five-IsDigit : IsDigit false 10 b'5'
unfolding digit
five-IsDigit = (5, omega arith, refl)

fifty_five-IsNumeral : IsNumeral false 10 55 (b'5' ∷ b'5' ∷ [])
unfolding read_number digit_value
fifty_five-IsNumeral = record {
  reads = refl;
  chars = (five-IsDigit, (five-IsDigit, tt));
  one_at_least = omega arith;
  shortest = inr (omega arith);
}
