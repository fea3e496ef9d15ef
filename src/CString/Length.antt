-- ===== src/CString/Length.antt =====
-- strlen() and strnlen() of common/libc/string.c.
use xtf.Base.{
  ℕ, zero, suc, ◌+◌, ◌≡◌, ◌≢◌, ◌∙◌, ap, List, [], ◌∷◌, ◌++◌, ◌==◌, arith, length, min, All,
}
use native.Mathlib.Nat.{add-zero}
use xtf.Base.Run.{ok, Ends, ended, faulted, Ends-split}
use xtf.CString.{strlen, strlen_loop, strnlen, strnlen_loop}

-- the contents of a C string
abbrev pub IsText : List ℕ → Type 0
IsText = All (λ c. c ≢ 0)

strlen_loop-IsText :
    (s rest : List ℕ) (n : ℕ) → IsText s → strlen_loop (s ++ 0 ∷ rest) n ≡ ok (length s + n)
unfolding strlen_loop
strlen_loop-IsText [] rest n h = ground arith
strlen_loop-IsText (c ∷ s) rest n h = ground (arith, strlen_loop-IsText s rest (n + 1) h.1)

zero-right : (n : ℕ) → min n 0 ≡ 0
zero-right n = omega arith

strnlen_loop-IsText :
    (s rest : List ℕ) (max n : ℕ)
    → IsText s
    → strnlen_loop (s ++ 0 ∷ rest) max n ≡ ok (min (length s) max + n)
unfolding strnlen_loop
strnlen_loop-IsText s rest zero n h = ground (arith, zero-right (length s))
strnlen_loop-IsText [] rest (suc max) n h = ground arith
strnlen_loop-IsText (c ∷ s) rest (suc max) n h =
    ground (arith, strnlen_loop-IsText s rest max (n + 1) h.1)

-- strlen() of a NUL-terminated string is its length, whatever follows the NUL.
pub strlen_lem : (s rest : List ℕ) → IsText s → strlen (s ++ 0 ∷ rest) ≡ ok (length s)
unfolding strlen
strlen_lem s rest h = strlen_loop-IsText s rest 0 h ∙ ap ok (add-zero _)

-- strnlen() of a NUL-terminated string is its length, bounded by `max`.
pub strnlen_lem :
    (s rest : List ℕ) (max : ℕ) → IsText s → strnlen (s ++ 0 ∷ rest) max ≡ ok (min (length s) max)
unfolding strnlen
strnlen_lem s rest max h = strnlen_loop-IsText s rest max 0 h ∙ ap ok (add-zero _)

strlen_loop-Ends : (s : List ℕ) (n : ℕ) → Ends (λ _. Unit {0}) (strlen_loop s n)
unfolding strlen_loop
strlen_loop-Ends [] n = faulted
strlen_loop-Ends (c ∷ s) n = Ends-split (c == 0) (λ _. ended tt) (λ _. strlen_loop-Ends s (n + 1))

pub strlen-Ends : (s : List ℕ) → Ends (λ _. Unit {0}) (strlen s)
unfolding strlen
strlen-Ends s = strlen_loop-Ends s 0

strnlen_loop-Ends : (s : List ℕ) (max n : ℕ) → Ends (λ _. Unit {0}) (strnlen_loop s max n)
unfolding strnlen_loop
strnlen_loop-Ends s zero n = ended tt
strnlen_loop-Ends [] (suc max) n = faulted
strnlen_loop-Ends (c ∷ s) (suc max) n =
    Ends-split (c == 0) (λ _. ended tt) (λ _. strnlen_loop-Ends s max (n + 1))

pub strnlen-Ends : (s : List ℕ) (max : ℕ) → Ends (λ _. Unit {0}) (strnlen s max)
unfolding strnlen
strnlen-Ends s max = strnlen_loop-Ends s max 0
