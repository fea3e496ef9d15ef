-- ===== src/Tests/CString.antt =====
-- common/libc/string.c and div.h at concrete inputs.
use xtf.Base.{◌*◌, ◌^◌, ◌+◌}
use xtf.Div.{divmod64, divmod64_32}
use xtf.Div.Agree.{divmod64_32_lem}
use xtf.Base.{ℕ, ◌≡◌, List, [], ◌∷◌, arith}
use xtf.Base.Run.{ok}
use xtf.CString.Length.{IsText}

abbrev ab : List ℕ
ab = b'a' ∷ b'b' ∷ []

abbrev ac : List ℕ
ac = b'a' ∷ b'c' ∷ []

abbrev four : List ℕ
four = 1 ∷ 2 ∷ 3 ∷ 4 ∷ []

ab-IsText : IsText ab
ab-IsText = (λ e. omega arith, (λ e. omega arith, tt))

ac-IsText : IsText ac
ac-IsText = (λ e. omega arith, (λ e. omega arith, tt))

divmod64_32_lem_example : divmod64_32 (5 * 2 ^ 32 + 7) 10 ≡ ok (divmod64 (5 * 2 ^ 32 + 7) 10)
divmod64_32_lem_example = divmod64_32_lem (5 * 2 ^ 32 + 7) 10 (omega arith)
