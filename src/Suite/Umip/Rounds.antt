-- ===== src/Suite/Umip/Rounds.antt =====
-- What the loops of tests/umip find.
use Prim.Native.String.{String}
use xtf.Base.{
  ℕ, ◌≡◌, refl, sym, ap, max, not, ◌&&◌, ◌||◌, Bool, true, false, if◌then◌else◌, List, [], ◌∷◌, map,
  arith,
}
use xtf.Report.{Message}
use xtf.Suite.{Test, ◌>>=◌, ◌>>◌, Cpu, Cr4, Fault, record_eax, stub, when, failure, for_each}
use xtf.Suite.Effect.{
  Effect, bind, of_run, of_skip, of_nothing, of_when_to, failure_unless, same, grade,
}
use xtf.Suite.Faults.{raises, is_expected, record_eax-raises, record_eax-expected}
use xtf.Suite.Umip.{
  Insn, World, Stub, beside, stubs, tolerate, judge, round, test_insns, test_umip, stub_sgdt,
  stub_sidt, stub_sldt, stub_str, stub_smsw, stub_user_sgdt, stub_user_sidt, stub_user_sldt,
  stub_user_str, stub_user_smsw,
}

abbrev name_of : Insn → String
name_of Insn.sgdt = "SGDT"
name_of Insn.sidt = "SIDT"
name_of Insn.sldt = "SLDT"
name_of Insn.str = "STR"
name_of Insn.smsw = "SMSW"

-- Whether something was skipped, and whether all that was not is as expected.
abbrev pub Finding : Type 0
Finding = Bool × Bool

-- Where nothing was skipped before, the first time raises the status to SKIP.
abbrev pub weight : (once : Bool) → Finding → ℕ
weight once (skipped, fine) = max (if skipped && not once then 2 else 0) (grade fine)

abbrev pub merge : Finding → Finding → Finding
merge (s, f) (t, g) = (s || t, f && g)

-- a part of the test that leaves the machine, and finds this whatever `once` is
pub record Finds {W : Type 0} (f : Test (World W) (Unit {0})) (w : W) (x : Finding) : Type 0 where
  pub effect : (once : Bool) → Effect f (w, once) tt (w, once || x.0) (weight once x)

weight-merge :
    (once s f t g : Bool)
    → max (weight (once || s) (t, g)) (weight once (s, f)) ≡ weight once (merge (s, f) (t, g))
weight-merge once s f t g = ground arith

pub or_assoc : (a b c : Bool) → ((a || b) || c) ≡ (a || (b || c))
or_assoc true b c = refl
or_assoc false b c = refl

pub combine :
    {W : Type 0} {f g : Test (World W) (Unit {0})} {w : W} {x y : Finding}
    → Finds f w x
    → Finds g w y
    → Finds (f >> g) w (merge x y)
combine {g} {w} {x} {y} a b = record {
  effect = λ once.
      same (bind (λ _. g) (a.effect once) (b.effect (once || x.0))) refl
        (ap (λ o. (w, o)) (or_assoc once x.0 y.0)) (weight-merge once x.0 x.1 y.0 y.1);
}

-- no finding
abbrev pub nothing : Finding
nothing = (false, true)

abbrev pub findings : {A : Type 0} → (A → Finding) → List A → Finding
findings find [] = nothing
findings find (x ∷ xs) = merge (find x) (findings find xs)

same_or : (once : Bool) → once ≡ (once || false)
same_or true = refl
same_or false = refl

pub Finds-loop :
    {W A B : Type 0} (f : B → A) (xs : List B) (body : A → Test (World W) (Unit {0})) {w : W}
    {find : B → Finding}
    → ((x : B) → Finds (body (f x)) w (find x))
    → Finds (for_each (map f xs) body) w (findings find xs)
unfolding for_each ◌>>=◌ when
Finds-loop f [] body {w} h = record {
  effect = λ once.
      same (of_nothing (for_each [] body) (w, once)) refl (ap (λ o. (w, o)) (same_or once))
        (ground arith);
}
Finds-loop f (x ∷ xs) body h = combine {g = for_each (map f xs) body} (h x) (Finds-loop f xs body h)

-- an instruction that an emulator does not know, and else one that faults or not as it has to
abbrev pub find : (umip_active force user : Bool) → Fault → Finding
find umip_active force user fault =
    let unknown = force && raises 6 fault in
    (unknown, unknown || is_expected (user && umip_active) fault)

tolerate_lem :
    {W : Type 0} (name : String) (w : W) (once : Bool)
    → Effect (tolerate name) (w, once) tt (w, true) (if once then 0 else 2)
unfolding tolerate
tolerate_lem name w true =
    same (bind _ (of_run _ (w, true)) (of_nothing _ (w, true))) refl refl refl
tolerate_lem name w false =
    same
      (bind _ (of_run _ (w, false))
        (of_when_to true (bind _ (of_skip _ (w, false)) (of_run _ (w, false)))))
      refl refl refl

seen : (once : Bool) → true ≡ (once || true)
seen true = refl
seen false = refl

judged :
    {W : Type 0} (unknown ok : Bool) (name : String) (m : Message) (w : W)
    → Finds
        (if unknown then tolerate name else when (not ok) (failure m))
        w
        (unknown, unknown || ok)
judged true ok name m w = record {
  effect =
      λ once. same (tolerate_lem name w once) refl (ap (λ o. (w, o)) (seen once)) (ground arith);
}
judged false ok name m w = record {
  effect = λ once.
      same (failure_unless ok m (w, once)) refl (ap (λ o. (w, o)) (same_or once)) (omega arith);
}

pub judge-Finds :
    {W : Type 0} (umip_active force user : Bool) (name : String) (fault : Fault) (w : W)
    → Finds
        (judge umip_active force user name (record_eax fault))
        w
        (find umip_active force user fault)
unfolding judge
judge-Finds umip_active force user name fault w =
    rw
      (
        sym (record_eax-raises 6 (omega arith) fault),
        sym (record_eax-expected (user && umip_active) fault),
      )
      (judged _ _ name _ w)

max_zero : (n : ℕ) → max n 0 ≡ n
max_zero n = omega arith

after_stub :
    {W : Type 0} (insn : W → Fault × W) (k : ℕ → Test (World W) (Unit {0})) {w : W} {x : Finding}
    → (insn w).1 ≡ w
    → Finds (k (record_eax (insn w).0)) w x
    → Finds (stub record_eax (beside insn) >>= k) w x
unfolding stub
after_stub insn k {w} e p = record {
  effect = λ once.
      same (bind k (same (of_run _ (w, once)) refl (ap (λ u. (u, once)) e) refl) (p.effect once))
        refl refl (max_zero _);
}

when-Finds :
    {W : Type 0} (c : Bool) {f : Test (World W) (Unit {0})} {w : W} {x : Finding}
    → Finds f w x
    → Finds (when c f) w (if c then x else nothing)
unfolding when
when-Finds true p = record { effect = p.effect }
when-Finds false {f} {w} p = record {
  effect =
      λ once. same (of_nothing f (w, once)) refl (ap (λ o. (w, o)) (same_or once)) (omega arith);
}

module _ {W : Type 0} (cpu : Cpu W Insn) where
  abbrev pub instructions : List Insn
  instructions = Insn.sgdt ∷ Insn.sidt ∷ Insn.sldt ∷ Insn.str ∷ Insn.smsw ∷ []

  -- a row of the table
  abbrev row : Insn → Stub W
  row i = record {
    fn = λ force. stub record_eax (beside (cpu.execute false force i));
    user_fn = λ force. stub record_eax (beside (cpu.execute true force i));
    name = name_of i;
  }

  table : stubs cpu ≡ map row instructions
  unfolding stubs stub_sgdt stub_sidt stub_sldt stub_str stub_smsw stub_user_sgdt stub_user_sidt
      stub_user_sldt stub_user_str stub_user_smsw
  table = refl

  -- of one instruction in one mode, and of all in both modes
  abbrev pub find_one : (umip_active force user : Bool) → W → Insn → Finding
  find_one umip_active force user w i = find umip_active force user (cpu.execute user force i w).0

  unfoldable pub find_insns : (umip_active force : Bool) → W → Finding
  find_insns umip_active force w =
      findings (λ user. findings (find_one umip_active force user w) instructions)
        (false ∷ true ∷ [])

  -- with the forced emulation where it is there
  abbrev pub find_umip : (xtf_has_fep umip_active : Bool) → W → Finding
  find_umip xtf_has_fep umip_active w =
      merge (find_insns umip_active false w)
        (if xtf_has_fep then find_insns umip_active true w else nothing)

  module _
      (unchanged : (user fep : Bool) (i : Insn) (w : W) → (cpu.execute user fep i w).1 ≡ w) where
    round-Finds :
        (umip_active force user : Bool) (i : Insn) (w : W)
        → Finds (round umip_active force user (row i)) w (find_one umip_active force user w i)
    unfolding round
    round-Finds umip_active force true i w =
        after_stub (cpu.execute true force i) (judge umip_active force true (name_of i))
          (unchanged true force i w) (judge-Finds umip_active force true (name_of i) _ w)
    round-Finds umip_active force false i w =
        after_stub (cpu.execute false force i) (judge umip_active force false (name_of i))
          (unchanged false force i w) (judge-Finds umip_active force false (name_of i) _ w)

    rounds-Finds :
        (umip_active force user : Bool) (w : W)
        → Finds
            (for_each (stubs cpu) (round umip_active force user))
            w
            (findings (find_one umip_active force user w) instructions)
    rounds-Finds umip_active force user w =
        rw table (Finds-loop row instructions _ λ i. round-Finds umip_active force user i w)

    pub test_insns-Finds :
        (umip_active force : Bool) (w : W)
        → Finds (test_insns cpu umip_active force) w (find_insns umip_active force w)
    unfolding test_insns find_insns
    test_insns-Finds umip_active force w =
        Finds-loop (λ user. user) (false ∷ true ∷ []) _
          λ user. rounds-Finds umip_active force user w

    pub test_umip-Finds :
        (control : Cr4 W) (xtf_has_fep cpu_has_umip umip_active : Bool) (w : W)
        → Finds
            (test_umip cpu control xtf_has_fep cpu_has_umip umip_active)
            w
            (find_umip xtf_has_fep umip_active w)
    unfolding test_umip
    test_umip-Finds control xtf_has_fep cpu_has_umip umip_active w =
        combine (test_insns-Finds umip_active false w)
          (when-Finds xtf_has_fep (test_insns-Finds umip_active true w))
