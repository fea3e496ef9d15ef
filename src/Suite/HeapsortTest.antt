-- ===== src/Suite/HeapsortTest.antt =====
-- selftests/heapsort.c, which the host runs. What printf() prints is a list of texts and numbers, and
-- rand() yields any non-negative `int`s.
pub mod Passes
use Prim.Native.String.{String}
use xtf.Base.{
  ℕ, suc, ◌+◌, ◌-◌, ◌*◌, ◌/◌, ◌%◌, ◌^◌, ◌<◌, ◌==◌, ltb, Bool, true, false, if◌then◌else◌, List, [],
  ◌∷◌, ◌++◌, map, length, arith,
}
use xtf.Base.Int.{ℤ, pos, negsuc, pos_part, neg_part, ◌-ℤ◌, ltb_ℤ}
use xtf.Base.Run.{Run, ok, fault, out_of_fuel, ◌>>=◌}
use xtf.Printf.Parse.{signed32}
use xtf.Heapsort.{Client, heapsort}

-- a non-negative `int`, as all the test has are
pub record NonNegative : Type 0 where
  pub number : ℕ
  pub below : number < 2 ^ 31

pub data Printed : Type 0 where
  text : String → Printed
  number : ℕ → Printed

-- `printf("%d")`, and a comma unless it is the last
unfoldable pub print_elements : List NonNegative → List Printed
print_elements [] = []
print_elements (x ∷ []) = Printed.number x.number ∷ []
print_elements (x ∷ y ∷ xs) = Printed.number x.number ∷ Printed.text ", " ∷ print_elements (y ∷ xs)

unfoldable pub print_array : String → List NonNegative → List Printed
print_array pref arr =
    Printed.text pref ∷ Printed.text "{" ∷ print_elements arr ++ Printed.text "}\n" ∷ []

-- `*l - *r`, as a processor with 32 bits computes it
unfoldable pub compar_int : NonNegative → NonNegative → ℤ
compar_int l r = signed32 ((l.number + 2 ^ 32 - r.number) % 2 ^ 32)

unfoldable pub swap_int : NonNegative → NonNegative → NonNegative × NonNegative
swap_int l r = let tmp = l in let l = r in let r = tmp in (l, r)

abbrev pub int_client : Client NonNegative
int_client = record { size = 4; compar = compar_int; swap = swap_int }

-- the loop over the result, which stops at the first descent
unfoldable pub in_order : List NonNegative → Bool
in_order [] = true
in_order (x ∷ []) = true
in_order (x ∷ y ∷ xs) =
    let rest = in_order (y ∷ xs) in if ltb y.number x.number then false else rest

unfoldable pub test : List NonNegative → Run (Bool × List Printed)
test arr = do
  heap ← heapsort int_client arr (length arr)
  let printed = print_array "Input: " arr
  ok (if in_order heap then (true, printed) else (false, printed ++ print_array "  Failed! " heap))

-- the TEST() lines, of which the first that fails ends main()
unfoldable pub run_tests : List (List NonNegative) → Run (Bool × List Printed)
run_tests [] = ok (true, [])
run_tests (arr ∷ arrs) = do
  (passed, printed) ← test arr
  let next = do (others, more) ← run_tests arrs; ok (others, printed ++ more)
  if passed then next else ok (false, printed)

pub in_range : (n : ℕ) → n % 2 ^ 31 < 2 ^ 31
in_range n = omega arith

abbrev pub int_of : ℕ → NonNegative
int_of n = record { number = n % 2 ^ 31; below = in_range n }

-- the arrays of main()
abbrev arrays : List (List NonNegative)
arrays = map (map int_of) (
    (1 ∷ [])
    ∷ (1 ∷ 2 ∷ [])
    ∷ (2 ∷ 1 ∷ [])
    ∷ (3 ∷ 2 ∷ 1 ∷ [])
    ∷ (4 ∷ 3 ∷ 2 ∷ 1 ∷ [])
    ∷ (3 ∷ 2 ∷ 4 ∷ 1 ∷ [])
    ∷ (3 ∷ 3 ∷ 4 ∷ 1 ∷ [])
    ∷ (3 ∷ 3 ∷ 4 ∷ 1 ∷ 10 ∷ [])
    ∷ (2 ∷ 3 ∷ 11 ∷ 1 ∷ 10 ∷ [])
    ∷ (2 ∷ 3 ∷ 11 ∷ 1 ∷ 10 ∷ 4 ∷ [])
    ∷ [])

-- The exit status, with what is printed; `random` are the results of the calls of rand().
unfoldable pub heapsort_test_main : (random : List NonNegative) → Run (ℕ × List Printed)
heapsort_test_main random = do
  (passed, printed) ← run_tests arrays
  let second = do
    arr ← heapsort int_client random (length random)
    let printed = printed ++ Printed.text "Testing array of 10000 random elements\n" ∷ []
    ok (if in_order arr then (0, printed) else (1, printed ++ Printed.text "Failed\n" ∷ []))
  if passed then second else ok (1, printed)
