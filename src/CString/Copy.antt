-- ===== src/CString/Copy.antt =====
-- strcpy(), strncpy(), memset() and memcpy() of common/libc/string.c.
use xtf.Base.{
  ℕ, zero, suc, ◌≡◌, refl, ◌≤◌, ◌<◌, ◌%◌, ◌-◌, List, [], ◌∷◌, ◌++◌, arith, length, take, drop,
  replicate,
}
use native.Mathlib.Nat.{zero-sub, sub-zero, suc-sub-suc}
use xtf.Base.Run.{ok}
use xtf.CString.{strcpy, strncpy, fill, memset, memcpy}
use xtf.CString.Length.{IsText}

-- strcpy() of a NUL-terminated string to a longer buffer copies it with its NUL, and leaves what follows that in `dst`.
pub strcpy_lem :
    (dst s rest : List ℕ)
    → IsText s
    → length s < length dst
    → strcpy dst (s ++ 0 ∷ rest) ≡ ok (s ++ 0 ∷ drop (suc (length s)) dst)
unfolding strcpy
strcpy_lem [] s rest h l = absurd (omega arith)
strcpy_lem (d ∷ dst) [] rest h l = refl
strcpy_lem (d ∷ dst) (c ∷ s) rest h l = ground (arith, strcpy_lem dst s rest h.1)

fill_lem :
    (dst : List ℕ) (c n : ℕ) → n ≤ length dst → fill dst c n ≡ ok (replicate n c ++ drop n dst)
unfolding fill
fill_lem dst c zero h = refl
fill_lem [] c (suc n) h = absurd (omega arith)
fill_lem (d ∷ dst) c (suc n) h = simp (fill_lem dst c n (omega arith))

-- memset() of at most all bytes of an object sets `n` bytes to the low byte of `c` and leaves the others.
pub memset_lem :
    (dst : List ℕ) (c n : ℕ)
    → n ≤ length dst
    → memset dst c n ≡ ok (replicate n (c % 256) ++ drop n dst)
unfolding memset
memset_lem dst c n h = fill_lem dst (c % 256) n h

-- memcpy() within both objects copies the first `n` bytes and leaves the others.
pub memcpy_lem :
    (dst src : List ℕ) (n : ℕ)
    → n ≤ length dst
    → n ≤ length src
    → memcpy dst src n ≡ ok (take n src ++ drop n dst)
unfolding memcpy
memcpy_lem dst src zero h k = refl
memcpy_lem dst [] (suc n) h k = absurd (omega arith)
memcpy_lem [] (c ∷ src) (suc n) h k = absurd (omega arith)
memcpy_lem (b ∷ dst) (c ∷ src) (suc n) h k = simp (memcpy_lem dst src n (omega arith) (omega arith))

-- strncpy() from a NUL-terminated string to a buffer of at least `n` bytes writes exactly `n` bytes, the
-- string cut off or filled up by NULs, and leaves the others.
pub strncpy_lem :
    (dst s rest : List ℕ) (n : ℕ)
    → IsText s
    → n ≤ length dst
    → strncpy dst (s ++ 0 ∷ rest) n ≡ ok (take n s ++ (replicate (n - length s) 0 ++ drop n dst))
unfolding strncpy
strncpy_lem dst s rest zero h l = rw zero-sub
strncpy_lem [] s rest (suc n) h l = absurd (omega arith)
strncpy_lem (d ∷ dst) [] rest (suc n) h l = simp (fill_lem dst 0 n (omega arith), sub-zero)
strncpy_lem (d ∷ dst) (c ∷ s) rest (suc n) h l =
    ground (arith, strncpy_lem dst s rest n h.1, suc-sub-suc n (length s))
