-- ===== src/Tests/Console.antt =====
-- common/console.c at concrete inputs.
use xtf.Base.{ℕ, ◌≡◌, refl, ◌<◌, List, [], ◌∷◌, take, length, replicate, arith}
use xtf.Base.{Bool, true, false, zero, suc, drop, some, ◌+◌, ◌%◌, get_elem?}
use xtf.Base.Run.{ok}
use xtf.Console.Input.{Holds, pv_console_read_some_lem}
use xtf.Console.{InRing, pv_console_read_some, wait_for_input, OutRing, pv_console_write_some}
use xtf.Base.{◌⊎◌}
use xtf.Base.Run.{fault}
use xtf.Base.Text.{codes}
use xtf.Printf.Parse.{Arg, int}
use xtf.Decode.{arch_fmt_pointer}
use xtf.Decode.Hook.{arch_fmt_pointer-UniformHook}
use xtf.Console.{vprintk}
use xtf.Console.Print.{Printed, vprintk_lem}
use xtf.Console.Queue.{IsQueue, pv_console_write_some_lem}

-- an empty ring whose indices are about to wrap around
abbrev idle : OutRing
idle = record { out = replicate 2048 0; out_cons = 4294967295; out_prod = 4294967295 }

idle-IsQueue : IsQueue idle []
idle-IsQueue = record {
  size = refl;
  index = omega arith;
  produced = refl;
  fits = omega arith;
  holds = λ i h. absurd (omega arith);
}

abbrev hi : List ℕ
hi = b'h' ∷ b'i' ∷ []

pv_console_write_some_lem_example :
    ((pv_console_write_some hi idle).0 ≡ 2) × IsQueue (pv_console_write_some hi idle).1 hi
pv_console_write_some_lem_example = pv_console_write_some_lem hi idle [] idle-IsQueue

-- one byte of input, at an index that wraps around
abbrev key : InRing
key = record { input = replicate 1024 b'k'; in_cons = 4294967295; in_prod = 0 }

key-Holds : Holds key (b'k' ∷ [])
key-Holds = record {
  size = refl;
  index = omega arith;
  produced = refl;
  fits = omega arith;
  bytes = first;
}
  where
    first :
        (i : ℕ)
        → i < 1
        → get_elem? (replicate 1024 b'k') ((4294967295 + i) % 1024)
          ≡ get_elem? {A = ℕ} (b'k' ∷ []) i
    first zero h = refl
    first (suc i) h = absurd (omega arith)

-- the bit is not set at first
abbrev seen : List (Bool × InRing)
seen = (false, key) ∷ (true, key) ∷ []

found_key : wait_for_input seen ≡ some key
unfolding wait_for_input
found_key = refl

pv_console_read_some_lem_example :
    (left : InRing) × (pv_console_read_some 3 seen ≡ some (ok (take 3 (b'k' ∷ []), left)))
    × Holds left (drop 3 (b'k' ∷ []))
pv_console_read_some_lem_example =
    pv_console_read_some_lem 3 seen key (b'k' ∷ []) found_key key-Holds

abbrev seven : List Arg
seven = int 7 ∷ []

vprintk_lem_example :
    ((t : List ℕ) × ((buf fns : List ℕ)
        → length buf ≡ 2048
        → Printed arch_fmt_pointer (codes "%d\n") seven t buf fns))
    ⊎ ((buf fns : List ℕ) → vprintk arch_fmt_pointer buf fns (codes "%d\n") seven ≡ fault)
vprintk_lem_example = vprintk_lem arch_fmt_pointer (codes "%d\n") seven arch_fmt_pointer-UniformHook
