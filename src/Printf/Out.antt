-- ===== src/Printf/Out.antt =====
-- The output buffer of common/libc/vsnprintf.c and its macro PUT.
use xtf.Base.{
  ℕ, zero, suc, ◌+◌, ◌≡◌, refl, List, [], ◌∷◌, ◌++◌, Bool, ◌||◌, leb, ltb, if◌then◌else◌, length,
  set,
}
use xtf.Base.Int.{ℤ, pos, negsuc}

-- `mem` is the memory from `buf` on, `str` the offset of the pointer of that name, `end` that of
-- `buf + size`. `overrun` tells that a write was outside of the memory.
pub record Out : Type 0 where
  pub mem : List ℕ
  pub str : ℕ
  pub end : ℕ
  pub overrun : Bool

-- `*(buf + i) = c`
unfoldable pub store : (i c : ℕ) → Out → Out
store i c o = record o { mem = set o.mem i c; overrun = o.overrun || leb (length o.mem) i }

unfoldable pub put : ℕ → Out → Out
put c o = let o' = if ltb o.str o.end then store o.str c o else o in record o' { str = o.str + 1 }

-- `while ( width-- > 0 ) PUT(c)`, with the value that it leaves in `width`
unfoldable pub put_while_pos : ℤ → ℕ → Out → ℤ × Out
put_while_pos (pos (suc w)) c o = put_while_pos (pos w) c (put c o)
put_while_pos (pos zero) c o = (negsuc 0, o)
put_while_pos (negsuc w) c o = (negsuc (suc w), o)

-- a text in order
unfoldable pub emit : List ℕ → Out → Out
emit [] o = o
emit (c ∷ t) o = emit t (put c o)

pub emit-append : (s t : List ℕ) (o : Out) → emit (s ++ t) o ≡ emit t (emit s o)
unfolding emit
emit-append [] t o = refl
emit-append (c ∷ s) t o = emit-append s t (put c o)
