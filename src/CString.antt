-- ===== src/CString.antt =====
-- common/libc/string.c. A pointer is the list of the bytes from there to the end of its object, a
-- byte a number below 256. An access past the end of a list is a fault. A function that writes
-- returns the new bytes from `dst` on; `dst` and `src` are different objects.
pub mod Length
pub mod Copy
pub mod Compare
use xtf.Base.{ℕ, zero, suc, ◌+◌, ◌-◌, ◌%◌, List, [], ◌∷◌, ltb, ◌==◌, if◌then◌else◌}
use xtf.Base.Int.{ℤ, pos, negsuc, sub_ℕ, ◌-ℤ◌}
use xtf.Base.Run.{Run, ok, fault, out_of_fuel, ◌>>=◌}

-- `s - str` is counted in `n`
strlen_loop : List ℕ → ℕ → Run ℕ
strlen_loop [] n = fault
strlen_loop (c ∷ s) n = let rest = strlen_loop s (n + 1) in if c == 0 then ok n else rest

unfoldable pub strlen : List ℕ → Run ℕ
unfolding strlen_loop
strlen str = strlen_loop str 0

strnlen_loop : List ℕ → ℕ → ℕ → Run ℕ
strnlen_loop s zero n = ok n
strnlen_loop [] (suc max) n = fault
strnlen_loop (c ∷ s) (suc max) n =
    let rest = strnlen_loop s max (n + 1) in if c == 0 then ok n else rest

unfoldable pub strnlen : List ℕ → ℕ → Run ℕ
unfolding strnlen_loop
strnlen str max = strnlen_loop str max 0

-- the byte in front of what a call made of the rest
abbrev pub keep : ℕ → Run (List ℕ) → Run (List ℕ)
keep c (ok s) = ok (c ∷ s)
keep c fault = fault
keep c out_of_fuel = out_of_fuel

unfoldable pub strcpy : List ℕ → List ℕ → Run (List ℕ)
strcpy [] src = fault
strcpy (d ∷ dst) [] = fault
strcpy (d ∷ dst) (c ∷ src) =
    let rest = strcpy dst src in if c == 0 then ok (0 ∷ dst) else keep c rest

-- `for ( ; i < n; ++i ) p[i] = '\0'`, and the loop of memset()
fill : List ℕ → ℕ → ℕ → Run (List ℕ)
fill dst c zero = ok dst
fill [] c (suc n) = fault
fill (d ∷ dst) c (suc n) = keep c (fill dst c n)

unfoldable pub strncpy : List ℕ → List ℕ → ℕ → Run (List ℕ)
unfolding fill
strncpy dst src zero = ok dst
strncpy dst [] (suc n) = fault
strncpy [] (c ∷ src) (suc n) = fault
strncpy (d ∷ dst) (c ∷ src) (suc n) =
    let rest = strncpy dst src n in if c == 0 then fill (d ∷ dst) 0 (suc n) else keep c rest

-- `(s1 < s2) ? -1 : (s1 > s2)`
abbrev pub compare_bytes : ℕ → ℕ → ℤ
compare_bytes s1 s2 = if ltb s1 s2 then negsuc 0 else if ltb s2 s1 then pos 1 else pos 0

unfoldable pub strcmp : List ℕ → List ℕ → Run ℤ
strcmp [] s = fault
strcmp (c ∷ s) [] = fault
strcmp (c ∷ s) (d ∷ t) =
    let rest = strcmp s t in
    if c == 0 then ok (compare_bytes c d) else if c == d then rest else ok (compare_bytes c d)

-- a plain `char`, which is signed
abbrev pub signed8 : ℕ → ℤ
signed8 c = if ltb c 128 then pos c else negsuc (255 - c)

unfoldable pub strncmp : List ℕ → List ℕ → ℕ → Run ℤ
unfolding ◌-ℤ◌
strncmp s t zero = ok (pos 0)
strncmp [] t (suc n) = fault
strncmp (c ∷ s) [] (suc n) = fault
strncmp (c ∷ s) (d ∷ t) (suc n) =
    let rest = strncmp s t n in if c == d then rest else ok (signed8 c -ℤ signed8 d)

unfoldable pub memset : List ℕ → ℕ → ℕ → Run (List ℕ)
unfolding fill
memset s c n = fill s (c % 256) n

unfoldable pub memcpy : List ℕ → List ℕ → ℕ → Run (List ℕ)
memcpy d s zero = ok d
memcpy d [] (suc n) = fault
memcpy [] (c ∷ s) (suc n) = fault
memcpy (b ∷ d) (c ∷ s) (suc n) = keep c (memcpy d s n)

-- `res` of the round before ends the loop
unfoldable pub memcmp : List ℕ → List ℕ → ℕ → Run ℤ
memcmp s t zero = ok (pos 0)
memcmp [] t (suc n) = fault
memcmp (c ∷ s) [] (suc n) = fault
memcmp (c ∷ s) (d ∷ t) (suc n) = let rest = memcmp s t n in if c == d then rest else ok (sub_ℕ c d)
