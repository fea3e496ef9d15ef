-- ===== src/Suite/Swint/Rules.antt =====
-- The rules of the processor's manuals that tests/swint-emulation/main.c tests.
use xtf.Base.{
  ℕ, ◌+◌, ◌*◌, ◌%◌, ◌^◌, ◌≡◌, refl, ◌==◌, ltb, not, ◌&&◌, ◌||◌, Bool, true, false, if◌then◌else◌,
  arith,
}
use xtf.Traps.{exinfo, ex_record_fault_eax}
use xtf.Suite.Swint.{Opcode, Gate, Idt, World, Raised, Processor, ex_record_trap_eax, recorded}

-- The rules of the manuals for a software interrupt: a gate with too low a privilege level is refused with
-- #GP, which icebp is not subject to, and one that is not present with #NP; the error code names the gate
-- in the IDT, with the bit for an external event for icebp. A 64 bit processor does not know into.
abbrev is_user_below : Bool → Gate → Bool
is_user_below user gate = user && ltb gate.dpl 3

abbrev by_int : (user : Bool) (vec : ℕ) → Gate → Raised
by_int user vec gate =
    if is_user_below user gate
    then Raised.fault 13 (vec * 8 + 2)
    else if not gate.p
    then Raised.fault 11 (vec * 8 + 2)
    else Raised.trap vec 0

abbrev pub delivered : (user : Bool) → Opcode → Idt → Raised
delivered user Opcode.int3 idt = by_int user 3 idt.bp
delivered user Opcode.int_0x3 idt = by_int user 3 idt.bp
delivered user Opcode.icebp idt =
    if not idt.db.p then Raised.fault 11 (1 * 8 + 3) else Raised.trap 1 0
delivered user Opcode.int_0x1 idt = by_int user 1 idt.db
delivered user Opcode.into idt = Raised.fault 6 0

-- The same exception at the same place; of a vector there are 8 bits, and of an error code 16.
abbrev pub is_same : Raised → Raised → Bool
is_same Raised.nothing Raised.nothing = true
is_same (Raised.fault v e) (Raised.fault u d) = (v % 256 == u % 256) && (e % 2 ^ 16 == d % 2 ^ 16)
is_same (Raised.trap v e) (Raised.trap u d) = (v % 256 == u % 256) && (e % 2 ^ 16 == d % 2 ^ 16)
is_same x y = false

pub recorded-is_same : (x y : Raised) → (recorded x == recorded y) ≡ is_same x y
unfolding recorded ex_record_fault_eax ex_record_trap_eax exinfo
recorded-is_same Raised.nothing Raised.nothing = refl
recorded-is_same Raised.nothing (Raised.fault u d) = ground arith
recorded-is_same Raised.nothing (Raised.trap u d) = ground arith
recorded-is_same (Raised.fault v e) Raised.nothing = ground arith
recorded-is_same (Raised.trap v e) Raised.nothing = ground arith
recorded-is_same (Raised.fault v e) (Raised.fault u d) = ground arith
recorded-is_same (Raised.fault v e) (Raised.trap u d) = ground arith
recorded-is_same (Raised.trap v e) (Raised.fault u d) = ground arith
recorded-is_same (Raised.trap v e) (Raised.trap u d) = ground arith

-- the three settings of the gates: as they have to be, absent, and for the kernel only
abbrev pub all_gates : Bool → ℕ → Idt
all_gates present dpl =
    let gate : Gate = record { p = present; dpl = dpl } in
    record { db = gate; bp = gate; of_gate = gate }

module _ {W : Type 0} (cpu : Processor W) (xtf_has_fep : Bool) where
  -- what one variant of an instruction raises
  abbrev pub variant : (user fep addr : Bool) → Opcode → World W → Raised
  variant user fep addr insn s = (cpu.execute user fep addr insn s).0

  -- Every variant that is tried is delivered by the rules.
  unfoldable pub agrees : Bool → Opcode → World W → Bool
  agrees user insn s =
      let rule = λ (fep : Bool) (addr : Bool).
        is_same (delivered user insn s.1) (variant user fep addr insn s) in
      rule false false
      && (rule false true && (not xtf_has_fep || (rule true false && rule true true)))

  -- the five instructions
  unfoldable pub all_agree : Bool → World W → Bool
  all_agree user s =
      agrees user Opcode.int3 s
      && (agrees user Opcode.int_0x3 s
          && (agrees user Opcode.icebp s
              && (agrees user Opcode.int_0x1 s && agrees user Opcode.into s)))

  -- all that is tried: from the kernel and from user mode, with the gates present or not, and from
  -- user mode with gates for the kernel only
  abbrev pub all_delivered : W → Bool
  all_delivered w =
      (all_agree false (w, all_gates true 3) && all_agree false (w, all_gates false 3))
      && (all_agree true (w, all_gates true 3)
          && (all_agree true (w, all_gates false 3) && all_agree true (w, all_gates true 0)))
