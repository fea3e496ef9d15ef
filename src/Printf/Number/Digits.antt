-- ===== src/Printf/Number/Digits.antt =====
-- The conversion loop of fmt_number(): which characters it leaves in `tmp`.
use xtf.Base.{
  ℕ, zero, suc, ◌+◌, ◌-◌, ◌*◌, ◌/◌, ◌%◌, ◌^◌, ◌<◌, ◌≤◌, ◌≡◌, refl, Bool, some, List, [], ◌∷◌, ◌++◌,
  leb, ◌==◌, if◌then◌else◌, length, arith, Bool-cases, ==_iff, inl, inr, All, max,
}
use mathlib.Core.List.{reverse, reverse-cons}
use mathlib.Core.Path.{subst}
use native.Mathlib.Nat.{pow-zero, pow-succ', div-add-mod'}
use xtf.Printf.Number.{digit, tmp_digits}

-- the number that a digit stands for
unfoldable pub digit_value : ℕ → ℕ
digit_value c = if leb c b'9' then c - b'0' else if leb c b'F' then c - b'A' + 10 else c - b'a' + 10

-- The number that a text stands for, read from the left with `acc` read so far.
unfoldable pub read_number : ℕ → ℕ → List ℕ → ℕ
read_number base acc [] = acc
read_number base acc (c ∷ s) = read_number base (acc * base + digit_value c) s

abbrev pub IsDigit : Bool → ℕ → ℕ → Type 0
IsDigit upper base c = (d : ℕ) × (d < base) × (c ≡ digit upper d)

read_number-append :
    (base acc : ℕ) (s t : List ℕ)
    → read_number base acc (s ++ t) ≡ read_number base (read_number base acc s) t
unfolding read_number
read_number-append base acc [] t = refl
read_number-append base acc (c ∷ s) t = read_number-append base (acc * base + digit_value c) s t

pub digit_value-digit : (upper : Bool) (d : ℕ) → d < 16 → digit_value (digit upper d) ≡ d
unfolding digit_value digit
digit_value-digit upper d h = ground arith

-- What the loop leaves in `tmp` for `u`: digits that read as `u` from the last to the first, as few
-- as there can be.
pub record IsTmp (upper : Bool) (base u : ℕ) (tmp : List ℕ) : Type 0 where
  pub reads : read_number base 0 (reverse tmp) ≡ u
  pub chars : All (IsDigit upper base) tmp
  pub shortest : base ^ length tmp ≤ max 1 (u * base)

div-lt : (b p u : ℕ) → 0 < b → u < b * p → u / b < p
div-lt b p u h k = grind arith

IsTmp-nil : (upper : Bool) (base : ℕ) → IsTmp upper base 0 []
unfolding read_number
IsTmp-nil upper base = record { reads = refl; chars = tt; shortest = rw pow-zero (omega arith) }

shorter :
    (p base u : ℕ) → 1 < base → 0 < u → p ≤ max 1 (u / base * base) → base * p ≤ max 1 (u * base)
shorter p base u lo h e = grind (arith, div-add-mod' u base)

IsTmp-cons :
    (upper : Bool) (base u : ℕ) (t : List ℕ)
    → 1 < base
    → base ≤ 16
    → 0 < u
    → IsTmp upper base (u / base) t
    → IsTmp upper base u (digit upper (u % base) ∷ t)
unfolding read_number
IsTmp-cons upper base u t lo hi h v = record {
  reads =
      rw
        (
          reverse-cons,
          read_number-append,
          v.reads,
          digit_value-digit upper (u % base) (grind arith),
        )
        (div-add-mod' u base);
  chars = ((u % base, grind arith, refl), v.chars);
  shortest = rw pow-succ' (shorter (base ^ length t) base u lo h v.shortest);
}

-- The loop ends within its room, if that is enough for the digits of the number.
pub tmp_digits-IsTmp :
    (room : ℕ) (upper : Bool) (base u : ℕ)
    → 1 < base
    → base ≤ 16
    → u < base ^ room
    → (tmp : List ℕ) × (tmp_digits room upper base u ≡ some tmp)
      × IsTmp upper base u tmp
      × (length tmp ≤ room)
unfolding tmp_digits
tmp_digits-IsTmp zero upper base u lo hi h =
    let e : u ≡ 0 = omega (arith, pow-zero base) in
    ([], rw e, rw e (IsTmp-nil upper base), omega arith)
tmp_digits-IsTmp (suc room) upper base u lo hi h = elim (Bool-cases (u == 0)) [
  | inl done ↦
      let e : u ≡ 0 = (==_iff u 0).0 done in ([], rw done, rw e (IsTmp-nil upper base), omega arith)
  | inr more ↦
      let below =
        div-lt base (base ^ room) u (omega arith) (subst (λ k. u < k) (pow-succ' base room) h) in
      let (t, e, v, l) = tmp_digits-IsTmp room upper base (u / base) lo hi below in
      (
        digit upper (u % base) ∷ t,
        rw (more, e),
        IsTmp-cons upper base u t lo hi (ground arith) v,
        omega arith,
      )
]
