-- ===== src/Printf/Uniform/Pointers.antt =====
-- pointer().
use xtf.Base.{
  ℕ, zero, suc, ◌≤◌, Bool, true, false, ◌==◌, if◌then◌else◌, List, [], ◌∷◌, Option, none, some,
  get_or, length, arith,
}
use native.Mathlib.Nat.{le_refl, le_trans}
use xtf.Base.Int.{ℤ, pos, negsuc}
use xtf.Printf.Number.{Flags}
use xtf.Printf.Writer.{
  Uniform, Anything, Uniform-return, Uniform-undefined, Uniform-split, Uniform-bind, Uniform-put,
}
use xtf.Printf.Pointer.{ArchHook, advance, put_hex, hex_string, hex_address, after_arch, pointer}
use xtf.Printf.Uniform.Parts.{fmt_number-Uniform}

pub advance-le : (fmt : List ℕ) → length (advance fmt) ≤ length fmt
advance-le [] = omega arith
advance-le (c ∷ fmt) = omega arith

-- What is left of the format string is no longer than `n`.
abbrev pub Within : ℕ → List ℕ → Type 0
Within n fmt = length fmt ≤ n

abbrev pub IfWithin : ℕ → Option (List ℕ) → Type 0
IfWithin n none = Unit
IfWithin n (some fmt) = Within n fmt

-- the hook of an architecture puts out a text that does not depend on the buffer
abbrev pub UniformHook : ArchHook → Type 0
UniformHook arch =
    (fmt : List ℕ) (arg : ℕ) (w p : ℤ) (flags : Flags)
    → Uniform (IfWithin (length fmt)) (arch fmt arg w p flags)

put_hex-Uniform : (sep : ℕ) (buffer : List ℕ) (n : ℕ) → Uniform Anything (put_hex sep buffer n)
unfolding put_hex
put_hex-Uniform sep [] n = Uniform-undefined
put_hex-Uniform sep (b ∷ buffer) zero = fmt_number-Uniform b 16 _ _ _
put_hex-Uniform sep (b ∷ buffer) (suc n) = Uniform-bind (fmt_number-Uniform b 16 _ _ _) λ _ _.
    Uniform-bind (Uniform-split (sep == 0) (λ _. Uniform-return tt tt) (λ _. Uniform-put sep))
      λ _ _. put_hex-Uniform sep buffer n

after_hex :
    (b : Bool) (fmt : List ℕ)
    → Within (length fmt) (if b then advance (advance fmt) else advance fmt)
after_hex true fmt = le_trans (advance-le (advance fmt)) (advance-le fmt)
after_hex false fmt = advance-le fmt

hex_string-Uniform :
    (fmt buffer : List ℕ) (w : ℤ) → Uniform (Within (length fmt)) (hex_string fmt buffer w)
unfolding hex_string
hex_string-Uniform fmt buffer (pos zero) = Uniform-return _ (advance-le fmt)
hex_string-Uniform fmt buffer (pos (suc w)) =
    Uniform-bind (put_hex-Uniform _ buffer _) λ _ _. Uniform-return _ (after_hex _ fmt)
hex_string-Uniform fmt buffer (negsuc w) = Uniform-return _ (advance-le fmt)

hex_address-Uniform :
    (arg : ℕ) (w p : ℤ) (flags : Flags) → Uniform Anything (hex_address arg w p flags)
unfolding hex_address
hex_address-Uniform arg (negsuc zero) p flags = fmt_number-Uniform arg 16 _ p _
hex_address-Uniform arg w p flags = fmt_number-Uniform arg 16 w p flags

after_arch-Uniform :
    (fmt : List ℕ) (arg : ℕ) (w p : ℤ) (flags : Flags) (r : Option (List ℕ))
    → IfWithin (length fmt) r
    → Uniform (Within (length fmt)) (after_arch fmt arg w p flags r)
unfolding after_arch
after_arch-Uniform fmt arg w p flags (some after) i = Uniform-return after i
after_arch-Uniform fmt arg w p flags none i =
    Uniform-bind (hex_address-Uniform arg w p flags)
      λ _ _. Uniform-return fmt (le_refl (length fmt))

pub pointer-Uniform :
    (arch : ArchHook)
    → UniformHook arch
    → (fmt : List ℕ) (arg : ℕ) (buffer : List ℕ) (w p : ℤ) (flags : Flags)
    → Uniform (Within (length fmt)) (pointer arch fmt arg buffer w p flags)
unfolding pointer
pointer-Uniform arch h fmt arg buffer w p flags =
    Uniform-split (get_or fmt 1 0 == b'h') (λ _. hex_string-Uniform fmt buffer w)
      λ _. Uniform-bind (h fmt arg w p flags) (after_arch-Uniform fmt arg w p flags)
