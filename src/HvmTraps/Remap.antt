-- ===== src/HvmTraps/Remap.antt =====
-- remap_user() page by page.
use xtf.Base.{
  ◌%◌, ◌*◌, ◌/◌, [], ◌∷◌, ℕ, zero, suc, ◌+◌, ◌-◌, ◌<◌, ◌≤◌, ◌≡◌, refl, ap, ◌∙◌, sym, ◌==◌, leb, ltb,
  ◌&&◌, ◌||◌, Bool, Option, none, true, false, if◌then◌else◌, List, length, set, get_elem?, some,
  length-set, arith, Bool-cases, inl, inr,
}
use mathlib.Core.Option
use xtf.Base.Run.{Returns, returned, Returns-weaken}
use xtf.Heapsort.Array.{get_elem?-set}
use xtf.HvmTraps.{with_user, remap_loop, remap_user}

-- an entry with the bit for user accesses
abbrev pub user_page : ℕ → ℕ
user_page entry = entry % 4 + 4 + entry / 8 * 8

with_user-user_page : (entry : ℕ) → with_user entry ≡ user_page entry
with_user-user_page entry = ground arith

-- The pages from `first` to `last`, exclusively, are user pages now, and the others are as they were.
pub record Remapped (before : List ℕ) (first last : ℕ) (after : List ℕ) : Type 0 where
  pub size : length after ≡ length before
  pub pages :
      (i : ℕ)
      → get_elem? after i ≡ (
          if leb first i && ltb i last
          then Option.map user_page (get_elem? before i)
          else get_elem? before i)

in_range : (l : List ℕ) (i : ℕ) → i < length l → (e : ℕ) × (get_elem? l i ≡ some e)
in_range [] i h = absurd (omega arith)
in_range (x ∷ l) zero h = (x, refl)
in_range (x ∷ l) (suc i) h = in_range l i (omega arith)

nothing : (first i : ℕ) → (leb first i && ltb i (first + 0)) ≡ false
nothing first i = ground arith

one_more :
    (table after : List ℕ) (first n e : ℕ)
    → first < length table
    → get_elem? table first ≡ some e
    → Remapped (set table first (with_user e)) (first + 1) (first + 1 + n) after
    → Remapped table first (first + suc n) after
one_more table after first n e h there v = record {
  size = v.size ∙ length-set table first (with_user e);
  pages = λ i. v.pages i ∙ elim (Bool-cases (first == i)) [
    | inl here ↦
        let a : (leb (first + 1) i && ltb i (first + 1 + n)) ≡ false = ground (arith, here) in
        let b : (leb first i && ltb i (first + suc n)) ≡ true = ground (arith, here) in
        let c : i ≡ first = ground (arith, here) in
        rw (a, b)
          (get_elem?-set table first i (with_user e) h
            ∙ rw here (
                sym (
                  ap (λ k. Option.map user_page (get_elem? table k)) c
                  ∙ ap (Option.map user_page) there
                  ∙ ap some (sym (with_user-user_page e)))))
    | inr elsewhere ↦
        let a : (leb (first + 1) i && ltb i (first + 1 + n))
            ≡ (leb first i && ltb i (first + suc n)) =
          ground (arith, elsewhere) in
        let b : get_elem? (set table first (with_user e)) i ≡ get_elem? table i =
          get_elem?-set table first i (with_user e) h ∙ rw elsewhere refl in
        rw (a, b) refl
  ];
}

remap_loop-Remapped :
    (n first : ℕ) (table : List ℕ)
    → first + n ≤ length table
    → Returns (Remapped table first (first + n)) (remap_loop n first table)
unfolding remap_loop
remap_loop-Remapped zero first table h =
    returned (record { size = refl; pages = λ i. rw (nothing first i) refl })
remap_loop-Remapped (suc n) first table h =
    let (e, there) = in_range table first (omega (arith, h)) in
    rw there (
      Returns-weaken
        (remap_loop-Remapped n (first + 1) (set table first (with_user e))
          (omega (arith, h, length-set table first (with_user e))))
        (λ after. one_more table after first n e (omega (arith, h)) there))

same_range :
    (first last i : ℕ)
    → (leb first i && ltb i (first + (last - first))) ≡ (leb first i && ltb i last)
same_range first last i = ground arith

-- remap_user() of a range of pages within the table changes the entries of these pages only, in which it
-- sets the bit for user accesses, and makes no access outside of the table.
pub remap_user-Remapped :
    (first last : ℕ) (table : List ℕ)
    → first ≤ length table
    → last ≤ length table
    → Returns (Remapped table first last) (remap_user first last table)
unfolding remap_user
remap_user-Remapped first last table k h =
    Returns-weaken (remap_loop-Remapped (last - first) first table (omega (arith, h, k)))
      (λ after v. record {
        size = v.size;
        pages = λ i. v.pages i ∙ rw (same_range first last i) refl;
      })

user_page-user_page : (entry : ℕ) → user_page (user_page entry) ≡ user_page entry
user_page-user_page entry = omega arith

-- a page that two remappings, or one of them, or none makes a user page
remapped_twice :
    (first second : Bool) (page : Option ℕ)
    → (if second
        then Option.map user_page (if first then Option.map user_page page else page)
        else if first
        then Option.map user_page page
        else page)
      ≡ (if first || second then Option.map user_page page else page)
remapped_twice true true none = refl
remapped_twice true true (some entry) = ap some (user_page-user_page entry)
remapped_twice true false page = refl
remapped_twice false true page = refl
remapped_twice false false page = refl

-- the same of three
pub remapped_thrice :
    (first second third : Bool) (page : Option ℕ)
    → (if third
        then Option.map user_page (
            if second
            then Option.map user_page (if first then Option.map user_page page else page)
            else if first
            then Option.map user_page page
            else page)
        else if second
        then Option.map user_page (if first then Option.map user_page page else page)
        else if first
        then Option.map user_page page
        else page)
      ≡ (if first || (second || third) then Option.map user_page page else page)
remapped_thrice true second third page =
    remapped_twice second third (Option.map user_page page)
    ∙ remapped_twice true (second || third) page
remapped_thrice false second third page = remapped_twice second third page
