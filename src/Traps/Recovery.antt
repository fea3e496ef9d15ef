-- ===== src/Traps/Recovery.antt =====
-- Recovery from an exception through the exception table.
use xtf.Base.{
  ℕ, ◌+◌, ◌*◌, ◌%◌, ◌^◌, ◌<◌, ◌≡◌, ◌≢◌, refl, sym, ◌∙◌, ◌==◌, Bool, true, false, Bool-cases, inl,
  inr, List, [], ◌∷◌, Option, some, length, get_elem?, arith,
}
use xtf.Base.Text.{codes}
use xtf.Base.Run.{Run, ok, fault, ◌>>=◌}
use xtf.Printf.Parse.{int, ptr}
use xtf.Decode.{exinfo_vec, exinfo_ec}
use xtf.Extable.{CpuRegs, Entry}
use xtf.Extable.Sorted.{fault_of}
use xtf.Extable.Search.{
  fault_at, Searched, found, absent, overrun, search_extable_lem, fault_at-some,
}
use xtf.Heapsort.Array.{get_elem?-some}
use xtf.Heapsort.Sort.{IsSorted}
use xtf.Traps.{
  exinfo, Handler, Outcome, ex_record_fault_eax, ex_record_fault_edi, give_up, redirect, look_up,
  try_hook, conclude, do_exception,
}

exinfo_vec-exinfo : (vec ec : ℕ) → vec < 256 → exinfo_vec (exinfo vec ec) ≡ vec
unfolding exinfo_vec exinfo
exinfo_vec-exinfo vec ec h = omega arith

exinfo_ec-exinfo : (vec ec : ℕ) → ec < 2 ^ 16 → exinfo_ec (exinfo vec ec) ≡ ec
unfolding exinfo_ec exinfo
exinfo_ec-exinfo vec ec h = omega arith

-- ex_record_fault_eax() handles a fault: the code goes on at the fixup, and finds in eax the vector
-- and the error code, for a vector of 8 and an error code of 16 bits.
pub ex_record_fault_eax_lem :
    (regs : CpuRegs) (ex : Entry)
    → regs.entry_vector < 256
    → regs.error_code < 2 ^ 16
    → ((ex_record_fault_eax regs ex).0 ≡ true)
      × ((ex_record_fault_eax regs ex).1.ip ≡ ex.fixup)
      × (exinfo_vec (ex_record_fault_eax regs ex).1.ax ≡ regs.entry_vector)
      × (exinfo_ec (ex_record_fault_eax regs ex).1.ax ≡ regs.error_code)
unfolding ex_record_fault_eax
ex_record_fault_eax_lem regs ex v e = (
  refl,
  refl,
  exinfo_vec-exinfo regs.entry_vector regs.error_code v,
  exinfo_ec-exinfo regs.entry_vector regs.error_code e,
)

-- ex_record_fault_edi() handles a fault: the code goes on at the fixup, and finds in edi the vector
-- and the error code, for a vector of 8 and an error code of 16 bits.
pub ex_record_fault_edi_lem :
    (regs : CpuRegs) (ex : Entry)
    → regs.entry_vector < 256
    → regs.error_code < 2 ^ 16
    → ((ex_record_fault_edi regs ex).0 ≡ true)
      × ((ex_record_fault_edi regs ex).1.ip ≡ ex.fixup)
      × (exinfo_vec (ex_record_fault_edi regs ex).1.di ≡ regs.entry_vector)
      × (exinfo_ec (ex_record_fault_edi regs ex).1.di ≡ regs.error_code)
unfolding ex_record_fault_edi
ex_record_fault_edi_lem regs ex v e = (
  refl,
  refl,
  exinfo_vec-exinfo regs.entry_vector regs.error_code v,
  exinfo_ec-exinfo regs.entry_vector regs.error_code e,
)

module _ (handler_at : ℕ → Handler) (hook : CpuRegs → Bool × CpuRegs) (cr2 : ℕ) where
  -- how an exception ends that no entry has resolved: by the hook, or by a panic that tells the
  -- registers that the hook left, and the address of a page fault
  pub data Unresolved (regs : CpuRegs) : Outcome → Type 0 where
    by_hook : (after : CpuRegs) → hook regs ≡ (true, after) → Unresolved regs (Outcome.resume after)
    page_fault :
        (after : CpuRegs)
        → hook regs ≡ (false, after)
        → after.entry_vector ≡ 14
        → Unresolved regs (
            Outcome.panics (codes "Unhandled exception at %04x:%p\nVec %u %pe %%cr2 %p\n") (
              int after.cs
              ∷ ptr after.ip []
              ∷ int after.entry_vector
              ∷ ptr (2 ^ 31 + 14 * 2 ^ 16 + after.error_code % 2 ^ 16) []
              ∷ ptr cr2 []
              ∷ []))
    other :
        (after : CpuRegs)
        → hook regs ≡ (false, after)
        → after.entry_vector ≢ 14
        → Unresolved regs (
            Outcome.panics (codes "Unhandled exception at %04x:%p\nVec %u %pe\n") (
              int after.cs
              ∷ ptr after.ip []
              ∷ int after.entry_vector
              ∷ ptr (2 ^ 31 + after.entry_vector % 256 * 2 ^ 16 + after.error_code % 2 ^ 16) []
              ∷ []))

  -- How an exception ends: with a fixup, a handler that resolves it or one that does not, at the address of an
  -- entry; without an entry for the address; or, beyond the last entry, with an access behind
  -- the table.
  pub data Handled (table : List Entry) (regs : CpuRegs) : Run Outcome → Type 0 where
    fixed :
        (i : ℕ) (ex : Entry)
        → get_elem? table i ≡ some ex
        → ex.fault ≡ regs.ip
        → ex.handler ≡ 0
        → Handled table regs (ok (Outcome.resume (record regs { ip = ex.fixup })))
    resolved :
        (i : ℕ) (ex : Entry) (after : CpuRegs)
        → get_elem? table i ≡ some ex
        → ex.fault ≡ regs.ip
        → ex.handler ≢ 0
        → handler_at ex.handler regs ex ≡ (true, after)
        → Handled table regs (ok (Outcome.resume after))
    declined :
        (i : ℕ) (ex : Entry) (after : CpuRegs) {o : Outcome}
        → get_elem? table i ≡ some ex
        → ex.fault ≡ regs.ip
        → ex.handler ≢ 0
        → handler_at ex.handler regs ex ≡ (false, after)
        → Unresolved after o
        → Handled table regs (ok o)
    unlisted :
        (j : ℕ) {o : Outcome}
        → j < length table
        → regs.ip < fault_at table j
        → ((i : ℕ) → i < length table → fault_at table i ≢ regs.ip)
        → Unresolved regs o
        → Handled table regs (ok o)
    beyond : ((i : ℕ) → i < length table → fault_at table i < regs.ip) → Handled table regs fault

  gave_up :
      (regs after : CpuRegs) → hook regs ≡ (false, after) → Unresolved regs (give_up cr2 after)
  unfolding give_up exinfo
  gave_up regs after e = elim (Bool-cases (after.entry_vector == 14)) [
    | inl pf ↦
        let v : after.entry_vector ≡ 14 = ground (arith, pf) in
        let shown : 2 ^ 31 + after.entry_vector % 256 * 2 ^ 16 + after.error_code % 2 ^ 16
            ≡ 2 ^ 31 + 14 * 2 ^ 16 + after.error_code % 2 ^ 16 =
          omega (arith, v) in
        rw (pf, shown) (page_fault after e v)
    | inr np ↦ rw np (other after e (λ v. ground (arith, np, v)))
  ]

  concluded :
      (regs : CpuRegs) (p : Bool × CpuRegs)
      → hook regs ≡ p
      → Unresolved regs (conclude handler_at hook cr2 p)
  unfolding conclude
  concluded regs (true, after) e = by_hook after e
  concluded regs (false, after) e = gave_up regs after e

  hooked :
      (regs : CpuRegs)
      → Unresolved regs (conclude handler_at hook cr2 (try_hook handler_at hook cr2 (false, regs)))
  unfolding try_hook
  hooked regs = concluded regs (hook regs) refl

  by_handler :
      (table : List Entry) (regs : CpuRegs) (i : ℕ) (ex : Entry) (p : Bool × CpuRegs)
      → get_elem? table i ≡ some ex
      → ex.fault ≡ regs.ip
      → ex.handler ≢ 0
      → handler_at ex.handler regs ex ≡ p
      → Handled table regs (ok (conclude handler_at hook cr2 (try_hook handler_at hook cr2 p)))
  unfolding try_hook conclude
  by_handler table regs i ex (true, after) at e n q = resolved i ex after at e n q
  by_handler table regs i ex (false, after) at e n q = declined i ex after at e n q (hooked after)

  at_entry :
      (table : List Entry) (regs : CpuRegs) (i : ℕ) (ex : Entry)
      → get_elem? table i ≡ some ex
      → ex.fault ≡ regs.ip
      → Handled table regs (
          ok (
            conclude handler_at hook cr2
              (try_hook handler_at hook cr2 (redirect handler_at hook cr2 ex regs))))
  unfolding redirect try_hook conclude
  at_entry table regs i ex at e = elim (Bool-cases (ex.handler == 0)) [
    | inl none_there ↦ rw none_there (fixed i ex at e (ground (arith, none_there)))
    | inr there ↦ rw there (
        by_handler table regs i ex (handler_at ex.handler regs ex) at e
          (λ z. ground (arith, there, z)) refl)
  ]

  of_search :
      (table : List Entry) (regs : CpuRegs) {r : Run (Option ℕ)}
      → Searched table regs.ip r
      → Handled table regs (
          r >>= λ found_at. look_up handler_at hook cr2 table regs found_at >>= λ safe.
          ok (conclude handler_at hook cr2 (try_hook handler_at hook cr2 safe)))
  unfolding look_up
  of_search table regs (found i h q) =
      let (ex, at) = get_elem?-some table i h in
      rw at (at_entry table regs i ex at (sym (fault_at-some table i at) ∙ q))
  of_search table regs (absent j h above none_at) = unlisted j h above none_at (hooked regs)
  of_search table regs (overrun below) = beyond below

  -- On a sorted exception table do_exception() ends as follows. At the address of an entry without a
  -- handler the code goes on at its fixup, with the other registers unchanged. At that of an entry with a
  -- handler which resolves the exception, it goes on with the registers that this leaves. If that does not resolve it, or if
  -- the address is that of no entry but below that of one, the hook is tried: the code goes on with the registers that it
  -- leaves if it resolves the exception, and otherwise do_exception() panics with these registers, the
  -- vector and the error code, and the faulting address for a page fault. At an address above all
  -- entries, it reads behind the table.
  pub do_exception_lem :
      (table : List Entry) (regs : CpuRegs)
      → IsSorted fault_of table
      → Handled table regs (do_exception handler_at hook cr2 table regs)
  unfolding do_exception
  do_exception_lem table regs s = of_search table regs (search_extable_lem table regs.ip s)
