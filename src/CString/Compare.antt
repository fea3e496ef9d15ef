-- ===== src/CString/Compare.antt =====
-- strcmp(), strncmp() and memcmp() of common/libc/string.c.
use xtf.Base.{
  ℕ, zero, suc, ◌≡◌, ◌≢◌, ◌↔◌, refl, ◌<◌, ◌≤◌, List, [], ◌∷◌, ◌++◌, ◌==◌, ltb, if◌then◌else◌, arith,
  length, take, All,
}
use xtf.Base.Int.{ℤ, pos, negsuc, ◌-ℤ◌}
use xtf.Base.Run.{ok}
use xtf.CString.{strcmp, strncmp, memcmp, signed8}
use xtf.CString.Length.{IsText}

abbrev pub AreBytes : List ℕ → Type 0
AreBytes = All (λ c. c < 256)

-- the lexicographic order of two texts, as the sign that strcmp() returns
pub compare_texts : List ℕ → List ℕ → ℤ
compare_texts [] [] = pos 0
compare_texts [] (d ∷ t) = negsuc 0
compare_texts (c ∷ s) [] = pos 1
compare_texts (c ∷ s) (d ∷ t) =
    if c == d then compare_texts s t else if ltb c d then negsuc 0 else pos 1

-- strcmp() compares two NUL-terminated strings by the lexicographic order of their bytes, whatever
-- follows the NULs.
pub strcmp_lem :
    (s t after after' : List ℕ)
    → IsText s
    → IsText t
    → strcmp (s ++ 0 ∷ after) (t ++ 0 ∷ after') ≡ ok (compare_texts s t)
unfolding strcmp compare_texts
strcmp_lem [] [] r r' h k = refl
strcmp_lem [] (d ∷ t) r r' h k = ground arith
strcmp_lem (c ∷ s) [] r r' h k = ground arith
strcmp_lem (c ∷ s) (d ∷ t) r r' h k = ground (arith, strcmp_lem s t r r' h.1 k.1)

compare_texts-eq : (s t : List ℕ) → compare_texts s t ≡ pos 0 → s ≡ t
unfolding compare_texts
compare_texts-eq [] [] e = refl
compare_texts-eq [] (d ∷ t) e = cc
compare_texts-eq (c ∷ s) [] e = cc
compare_texts-eq (c ∷ s) (d ∷ t) e = ground (arith, compare_texts-eq s t)

compare_texts_self : (s : List ℕ) → compare_texts s s ≡ pos 0
unfolding compare_texts
compare_texts_self [] = refl
compare_texts_self (c ∷ s) = ground (arith, compare_texts_self s)

signed8_differ : (c d : ℕ) → c < 256 → d < 256 → c ≢ d → signed8 c -ℤ signed8 d ≢ pos 0
unfolding ◌-ℤ◌
signed8_differ c d h k ne e = ne (ground arith)

-- For byte sequences of at least `n` bytes strncmp() returns 0 exactly if the first `n` bytes agree, also those behind a NUL.
pub strncmp-eq_zero :
    (s t : List ℕ) (n : ℕ)
    → AreBytes s
    → AreBytes t
    → n ≤ length s
    → n ≤ length t
    → (strncmp s t n ≡ ok (pos 0)) ↔ (take n s ≡ take n t)
unfolding strncmp
strncmp-eq_zero s t zero bs bt h k = (λ _. refl, λ _. refl)
strncmp-eq_zero [] t (suc n) bs bt h k = absurd (omega arith)
strncmp-eq_zero (c ∷ s) [] (suc n) bs bt h k = absurd (omega arith)
strncmp-eq_zero (c ∷ s) (d ∷ t) (suc n) bs bt h k =
    let ih = strncmp-eq_zero s t n bs.1 bt.1 (omega arith) (omega arith) in
    let differ = signed8_differ c d bs.0 bt.0 in
    (λ e. ground (arith, ih.0, differ), λ e. ground (arith, ih.1))

-- For sequences of at least `n` bytes memcmp() returns 0 exactly if the first `n` bytes agree.
pub memcmp-eq_zero :
    (s t : List ℕ) (n : ℕ)
    → n ≤ length s
    → n ≤ length t
    → (memcmp s t n ≡ ok (pos 0)) ↔ (take n s ≡ take n t)
unfolding memcmp
memcmp-eq_zero s t zero h k = (λ _. refl, λ _. refl)
memcmp-eq_zero [] t (suc n) h k = absurd (omega arith)
memcmp-eq_zero (c ∷ s) [] (suc n) h k = absurd (omega arith)
memcmp-eq_zero (c ∷ s) (d ∷ t) (suc n) h k =
    let ih = memcmp-eq_zero s t n (omega arith) (omega arith) in
    (λ e. ground (arith, ih.0), λ e. ground (arith, ih.1))
