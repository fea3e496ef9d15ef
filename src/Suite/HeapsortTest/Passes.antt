-- ===== src/Suite/HeapsortTest/Passes.antt =====
-- selftests/heapsort.c passes.
use xtf.Base.{
  ℕ, suc, ◌+◌, ◌-◌, ◌%◌, ◌^◌, ◌≤◌, ◌<◌, ◌≡◌, refl, ltb, true, false, List, [], ◌∷◌, arith,
}
use xtf.Base.Int.{pos, ltb_ℤ}
use xtf.Base.Run.{Returns, returned, Returns-bind}
use xtf.Printf.Parse.{signed32}
use xtf.Heapsort.{IsLawful}
use xtf.Heapsort.Index.{rank_of}
use xtf.Heapsort.Sort.{IsSorted, heapsort_lem}
use xtf.Suite.HeapsortTest.{
  NonNegative, compar_int, swap_int, int_client, in_order, test, run_tests, heapsort_test_main,
}

number_of : NonNegative → ℕ
number_of x = x.number

compar_int_lem :
    (x y : ℕ)
    → x < 2 ^ 31
    → y < 2 ^ 31
    → ltb_ℤ (signed32 ((x + 2 ^ 32 - y) % 2 ^ 32)) (pos 0) ≡ ltb x y
compar_int_lem x y h k = ground (arith, h, k)

int_client-IsLawful : IsLawful int_client (λ x. x.number)
unfolding compar_int swap_int
int_client-IsLawful = record {
  some_bytes = omega arith;
  compares = λ x y. compar_int_lem x.number y.number x.below y.below;
  swaps = λ x y. refl;
}

not_less : (m n : ℕ) → m ≤ n → ltb n m ≡ false
not_less m n h = ground (arith, h)

-- what is sorted has no descent
in_order_lem : (a : List NonNegative) → IsSorted (λ x. x.number) a → in_order a ≡ true
unfolding in_order rank_of
in_order_lem [] h = refl
in_order_lem (x ∷ []) h = refl
in_order_lem (x ∷ y ∷ xs) h =
    let ordered = h 0 1 (omega arith) (omega arith) in
    let rest =
      in_order_lem (y ∷ xs)
        (λ j k jk kn. h (suc j) (suc k) (omega (arith, jk)) (omega (arith, kn))) in
    rw (not_less x.number y.number ordered) rest

test_lem : (arr : List NonNegative) → Returns (λ r. r.0 ≡ true) (test arr)
unfolding test
test_lem arr =
    Returns-bind (heapsort_lem int_client _ int_client-IsLawful arr)
      λ heap s. rw (in_order_lem heap s.0) (returned refl)

run_tests_lem : (arrs : List (List NonNegative)) → Returns (λ r. r.0 ≡ true) (run_tests arrs)
unfolding run_tests
run_tests_lem [] = returned refl
run_tests_lem (arr ∷ arrs) =
    Returns-bind (test_lem arr) λ r e. rw e (Returns-bind (run_tests_lem arrs) (λ s d. returned d))

-- Whatever rand() yields, main() of the self-test of heapsort() returns 0: no array is out of order behind
-- heapsort(), and no access is outside of one.
pub heapsort_test_main_lem :
    (random : List NonNegative) → Returns (λ r. r.0 ≡ 0) (heapsort_test_main random)
unfolding heapsort_test_main
heapsort_test_main_lem random = Returns-bind (run_tests_lem _) λ r e. rw e (
    Returns-bind (heapsort_lem int_client _ int_client-IsLawful random)
      λ arr s. rw (in_order_lem arr s.0) (returned refl))
