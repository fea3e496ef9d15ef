-- ===== src/Extable/Search.antt =====
-- search_extable() of common/extable.c.
use xtf.Base.{
  false, ℕ, zero, suc, ◌+◌, ◌-◌, ◌/◌, ◌<◌, ◌≤◌, ◌≡◌, ◌≢◌, ◌⊎◌, refl, ap, ◌==◌, ltb, List, Option,
  some, none, length, get_elem?, arith, inl, inr, Bool-cases, Option-cases,
}
use xtf.Base.Run.{Run, ok, fault}
use xtf.Heapsort.Array.{get_elem?-some, get_elem?-lt}
use xtf.Heapsort.Index.{rank_of}
use xtf.Heapsort.Order.{key}
use xtf.Heapsort.Sort.{IsSorted}
use xtf.Extable.{Entry, search_loop, search_extable}
use xtf.Extable.Sorted.{fault_of}

abbrev pub fault_at : List Entry → ℕ → ℕ
fault_at table i = key fault_of table i

-- How a search ends: at an entry of the address; without one, where some entry has a higher address;
-- or by a read past the end of the table, where all entries have lower ones.
pub data Searched (table : List Entry) (addr : ℕ) : Run (Option ℕ) → Type 0 where
  found : (i : ℕ) → i < length table → fault_at table i ≡ addr → Searched table addr (ok (some i))
  absent :
      (j : ℕ)
      → j < length table
      → addr < fault_at table j
      → ((i : ℕ) → i < length table → fault_at table i ≢ addr)
      → Searched table addr (ok none)
  overrun : ((i : ℕ) → i < length table → fault_at table i < addr) → Searched table addr fault

-- The entries that are left lie from `start` on and before `stop`.
record SearchInv (table : List Entry) (addr start stop : ℕ) : Type 0 where
  ordered : start ≤ stop
  inside : start ≤ length table
  before : (i : ℕ) → i < start → fault_at table i < addr
  behind : (i : ℕ) → stop ≤ i → i < length table → addr < fault_at table i
  bounded : (stop ≡ length table + 1) ⊎ ((stop < length table) × (addr < fault_at table stop))

none-le : (a : List Entry) (i : ℕ) → get_elem? a i ≡ none → length a ≤ i
none-le a i e = elim (Bool-cases (ltb i (length a))) [
  | inl lt ↦ let (x, ex) = get_elem?-some a i (ground arith) in absurd (ground arith)
  | inr ge ↦ ground arith
]

pub fault_at-some :
    (table : List Entry) (i : ℕ) {e : Entry}
    → get_elem? table i ≡ some e
    → fault_at table i ≡ e.fault
unfolding rank_of
fault_at-some table i at = ap (rank_of fault_of) at

module _ (table : List Entry) (addr start stop : ℕ) (s : IsSorted fault_of table)
    (v : SearchInv table addr start stop) where
  raise :
      (m : ℕ) (e : Entry)
      → start ≤ m
      → m < stop
      → get_elem? table m ≡ some e
      → e.fault < addr
      → SearchInv table addr (m + 1) stop
  raise m e lo hi at lower = record {
    ordered = omega arith;
    inside = omega (arith, get_elem?-lt table m e at);
    before = λ i h.
        omega (arith, s i m (omega arith) (get_elem?-lt table m e at), fault_at-some table m at);
    behind = v.behind;
    bounded = v.bounded;
  }

  cut :
      (m : ℕ) (e : Entry)
      → start ≤ m
      → get_elem? table m ≡ some e
      → addr < e.fault
      → SearchInv table addr start m
  cut m e lo at higher = record {
    ordered = lo;
    inside = v.inside;
    before = v.before;
    behind = λ i h k. omega (arith, s m i h k, fault_at-some table m at);
    bounded = inr (get_elem?-lt table m e at, omega (arith, fault_at-some table m at));
  }

  past_end :
      start < stop
      → length table ≤ start + (stop - 1 - start) / 2
      → (i : ℕ) → i < length table
      → fault_at table i < addr
  past_end lt past i h = v.before i (omega (arith, v.bounded, v.ordered, v.inside))

  exhausted : ltb start stop ≡ false → Searched table addr (ok none)
  exhausted ge = elim v.bounded [
    | inl e ↦ absurd (ground (arith, v.inside))
    | inr b ↦ absent stop b.0 b.1 (λ i h e. elim (Bool-cases (ltb i start)) [
      | inl lt ↦ omega (arith, v.before i (ground arith))
      | inr out ↦ omega (arith, v.behind i (ground (arith, v.ordered)) h)
    ])
  ]

search_loop-Searched :
    (fuel : ℕ) (table : List Entry) (addr start stop : ℕ)
    → IsSorted fault_of table
    → stop - start < fuel
    → SearchInv table addr start stop
    → Searched table addr (search_loop fuel table addr start stop)
unfolding search_loop
search_loop-Searched zero table addr start stop s f v = absurd (omega arith)
search_loop-Searched (suc fuel) table addr start stop s f v =
    let m = start + (stop - 1 - start) / 2 in
    elim (Bool-cases (ltb start stop)) [
      | inr ge ↦ rw ge (exhausted table addr start stop s v ge)
      | inl lt ↦ elim (Option-cases (get_elem? table m)) [
        | inl past ↦
            rw (lt, past)
              (overrun (past_end table addr start stop s v (ground arith) (none-le table m past)))
        | inr (e, at) ↦ elim (Bool-cases (addr == e.fault)) [
          | inl hit ↦
              rw (lt, at, hit)
                (found m (get_elem?-lt table m e at) (ground (arith, fault_at-some table m at)))
          | inr miss ↦ elim (Bool-cases (ltb e.fault addr)) [
            | inl lower ↦
                rw (lt, at, miss, lower)
                  (search_loop-Searched fuel table addr (m + 1) stop s (ground arith) (
                    raise table addr start stop s v m e (omega arith) (ground arith) at
                      (ground arith)))
            | inr higher ↦
                rw (lt, at, miss, higher)
                  (search_loop-Searched fuel table addr start m s (ground arith)
                    (cut table addr start stop s v m e (omega arith) at (ground arith)))
          ]
        ]
      ]
    ]

-- search_extable() on a sorted table ends: at an entry of the address, if there is one; with no
-- entry, if there is none and some entry has a higher address; and only if all entries have lower
-- addresses, as in an empty table, with a read of the entry at `__stop_ex_table`, past the end.
pub search_extable_lem :
    (table : List Entry) (addr : ℕ)
    → IsSorted fault_of table
    → Searched table addr (search_extable table addr)
unfolding search_extable
search_extable_lem table addr s =
    search_loop-Searched (length table + 2) table addr 0 (length table + 1) s (omega arith)
      (record {
        ordered = omega arith;
        inside = omega arith;
        before = λ i h. absurd (omega arith);
        behind = λ i h k. absurd (omega arith);
        bounded = inl refl;
      })
