-- ===== src/Printf/Number/Text.antt =====
-- The text that fmt_number() puts out.
use xtf.Base.{
  ℕ, zero, suc, ◌-◌, ◌≡◌, refl, ◌∙◌, Bool, true, false, ◌&&◌, max, Bool-cases, inl, inr, List, [],
  ◌∷◌, ◌++◌, ltb, ◌==◌, if◌then◌else◌, length, replicate, arith, append-nil,
}
use mathlib.Core.List.{reverse, reverse-cons}
use native.Mathlib.Nat.{zero-sub}
use xtf.Base.Int.{ℤ, pos, negsuc, pos_part, ◌-ℤ◌, ltb_ℤ, pos_part-sub}
use xtf.Printf.Out.{Out, put, put_while_pos, emit, emit-append}
use xtf.Printf.Number.{Flags, put_zeros, put_tmp, put_alternate, put_prefix, put_fields, put_number}

put_while_pos-emit :
    (w : ℤ) (c : ℕ) (o : Out) → (put_while_pos w c o).1 ≡ emit (replicate (pos_part w) c) o
unfolding put_while_pos emit
put_while_pos-emit (pos (suc w)) c o = put_while_pos-emit (pos w) c (put c o)
put_while_pos-emit (pos zero) c o = refl
put_while_pos-emit (negsuc w) c o = refl

put_while_pos-width : (w : ℤ) (c : ℕ) (o : Out) → pos_part (put_while_pos w c o).0 ≡ 0
unfolding put_while_pos
put_while_pos-width (pos (suc w)) c o = put_while_pos-width (pos w) c (put c o)
put_while_pos-width (pos zero) c o = refl
put_while_pos-width (negsuc w) c o = refl

suc-sub : (i p : ℕ) → ltb i (suc p) ≡ true → suc p - i ≡ suc (p - i)
suc-sub i p h = ground arith

suc-sub_none : (i p : ℕ) → ltb i (suc p) ≡ false → suc p - i ≡ 0
suc-sub_none i p h = ground arith

put_zeros-emit : (i p : ℕ) (o : Out) → put_zeros i (pos p) o ≡ emit (replicate (p - i) b'0') o
unfolding put_zeros emit
put_zeros-emit i zero o = rw zero-sub
put_zeros-emit i (suc p) o = elim (Bool-cases (ltb i (suc p))) [
  | inl lt ↦ rw (lt, suc-sub i p lt, put_zeros-emit i p (put b'0' o))
  | inr ge ↦ rw (ge, suc-sub_none i p ge)
]

put_tmp-emit : (tmp : List ℕ) (o : Out) → put_tmp tmp o ≡ emit (reverse tmp) o
unfolding put_tmp emit
put_tmp-emit [] o = refl
put_tmp-emit (c ∷ tmp) o =
    rw (put_tmp-emit tmp o, reverse-cons, emit-append (reverse tmp) (c ∷ []) o)

-- the '0x' or '0' of the alternate representation
unfoldable pub alternate_text : Flags → ℕ → List ℕ
alternate_text flags base =
    if flags.alternate
    then if base == 16 then b'0' ∷ b'x' ∷ [] else if base == 8 then b'0' ∷ [] else []
    else []

unfoldable pub prefix_text : ℕ → List ℕ
prefix_text c = if c == 0 then [] else c ∷ []

put_alternate-emit :
    (flags : Flags) (base : ℕ) (o : Out)
    → put_alternate flags base o ≡ emit (alternate_text flags base) o
unfolding put_alternate alternate_text emit
put_alternate-emit flags base o = ground arith

put_prefix-emit : (c : ℕ) (o : Out) → put_prefix c o ≡ emit (prefix_text c) o
unfolding put_prefix prefix_text emit
put_prefix-emit c o = ground arith

-- A field of a number: its head (sign and alternate prefix), zeros up to the precision, its digits,
-- and `fill` columns more: spaces on the right (`left`), zeros behind the head (`zero_pad`), or
-- spaces on the left.
unfoldable pub layout : (left zero_pad : Bool) → List ℕ → ℕ → List ℕ → ℕ → List ℕ
layout true zero_pad head zeros digits fill =
    head ++ (replicate zeros b'0' ++ (digits ++ replicate fill b' '))
layout false true head zeros digits fill =
    head ++ (replicate fill b'0' ++ (replicate zeros b'0' ++ digits))
layout false false head zeros digits fill =
    replicate fill b' ' ++ (head ++ (replicate zeros b'0' ++ digits))

at_least_precision :
    (i : ℕ) (p : ℤ) → (if ltb_ℤ p (pos i) then pos i else p) ≡ pos (max i (pos_part p))
at_least_precision i (pos p) = ground arith
at_least_precision i (negsuc p) = ground arith

module _ (flags : Flags) (base c : ℕ) (tmp : List ℕ) (p : ℕ) where
  head_text : List ℕ
  head_text = prefix_text c ++ alternate_text flags base

  -- the fields of a number, once its width is used up or with `width` columns left
  put_fields-emit :
      (zero_pad : Bool) (w : ℤ) (o : Out)
      → put_fields flags base c tmp (pos p) zero_pad (w, o) ≡ (
          if zero_pad
          then emit
              (head_text
                ++ (replicate (pos_part w) b'0'
                    ++ (replicate (p - length tmp) b'0' ++ reverse tmp)))
              o
          else emit
              (head_text
                ++ (replicate (p - length tmp) b'0'
                    ++ (reverse tmp ++ replicate (pos_part w) b' ')))
              o)
  unfolding put_fields head_text emit
  put_fields-emit true w o =
      rw (put_while_pos-emit _ b' ', put_while_pos-width)
        (simp (
          emit-append, put_tmp-emit, put_zeros-emit, put_while_pos-emit, put_prefix-emit,
          put_alternate-emit,
        ))
  put_fields-emit false w o = simp (
    emit-append, put_tmp-emit, put_zeros-emit, put_while_pos-emit, put_prefix-emit,
    put_alternate-emit,
  )

  abbrev spaces : ℤ → Out → ℤ × Out
  spaces w o = put_while_pos (w -ℤ pos p) b' ' o

  pub put_number-emit :
      (w q : ℤ) (o : Out)
      → (flags.left && flags.zero_pad) ≡ false
      → max (length tmp) (pos_part q) ≡ p
      → put_number flags base c tmp w q o
        ≡ emit
            (layout flags.left flags.zero_pad
              (prefix_text c ++ alternate_text flags base)
              (p - length tmp)
              (reverse tmp)
              (pos_part w - p))
            o
  unfolding put_number layout head_text emit
  put_number-emit w q o h e = elim (Bool-cases flags.left) [
    | inl l ↦ elim (Bool-cases flags.zero_pad) [
      | inl z ↦ absurd (ground arith)
      | inr z ↦ simp (l, z, at_least_precision, e, put_fields-emit, pos_part-sub)
    ]
    | inr l ↦ elim (Bool-cases flags.zero_pad) [
      | inl z ↦ simp (l, z, at_least_precision, e, put_fields-emit, pos_part-sub)
      | inr z ↦
          simp (l, z, at_least_precision, e)
            (put_fields-emit false (spaces w o).0 (spaces w o).1
              ∙ simp
                  (put_while_pos-width, put_while_pos-emit, pos_part-sub, emit-append, append-nil))
    ]
  ]
