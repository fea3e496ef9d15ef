-- ===== src/Console/Print.antt =====
-- vprintk() of common/console.c.
use xtf.Base.{
  ℕ, ◌+◌, ◌-◌, ◌^◌, ◌<◌, ◌≤◌, ◌≡◌, ◌⊎◌, inl, inr, refl, ap, ◌∙◌, true, false, List, [], ◌∷◌, ◌++◌,
  some, none, length, take, arith, length-append, length-take,
}
use xtf.Base.Int.{pos, negsuc, ltb_ℤ, narrow, narrow-small, narrow-negative}
use xtf.Base.Run.{ok, fault}
use xtf.Printf.Number.{no_flags}
use xtf.Printf.Pointer.{ArchHook}
use xtf.Printf.Parse.{Arg}
use xtf.Base.Index.{take_all}
use xtf.Printf.Buffer.{overwrite, terminated}
use xtf.Printf.Uniform.Pointers.{UniformHook}
use xtf.Printf.Contract.{vsnprintf_internal_lem}
use xtf.Console.{call_all, send, vprintk}

overwrite-all : (mem t : List ℕ) → length t ≡ length mem → overwrite mem t ≡ t
unfolding overwrite
overwrite-all [] [] h = refl
overwrite-all (b ∷ mem) [] h = absurd (omega (arith, h))
overwrite-all [] (c ∷ t) h = absurd (omega (arith, h))
overwrite-all (b ∷ mem) (c ∷ t) h = ap (◌∷◌ c) (overwrite-all mem t (omega (arith, h)))

take-overwrite :
    (mem t u : List ℕ) → length t ≤ length mem → take (length t) (overwrite mem (t ++ u)) ≡ t
unfolding overwrite
take-overwrite mem [] u h = refl
take-overwrite [] (c ∷ t) u h = absurd (omega arith)
take-overwrite (b ∷ mem) (c ∷ t) u h = ap (◌∷◌ c) (take-overwrite mem t u (omega arith))

fits_terminated :
    (buf t : List ℕ)
    → length buf ≡ 2048
    → length t < 2048
    → take (length t) (terminated buf 2048 t) ≡ t
unfolding terminated
fits_terminated buf t h k =
    rw (take_all 2047 t (omega arith)) (take-overwrite buf t (0 ∷ []) (omega arith))

-- the whole buffer behind a text that does not fit
cut_terminated :
    (buf t : List ℕ)
    → length buf ≡ 2048
    → 2048 ≤ length t
    → terminated buf 2048 t ≡ take 2047 t ++ 0 ∷ []
unfolding terminated
cut_terminated buf t h k =
    overwrite-all buf (take 2047 t ++ 0 ∷ [])
      (ground (arith, h, k, length-append (take 2047 t) (0 ∷ []), length-take 2047 t))

below_limit : (n : ℕ) → ltb_ℤ (pos 2048) (negsuc n) ≡ false
below_limit n = ground arith

-- What vprintk() does with a text `t` of fewer than 2 ^ 32 characters. `text` is what the callbacks find in
-- the buffer.
pub record Printed (arch : ArchHook) (fmt : List ℕ) (args : List Arg) (t buf fns : List ℕ)
    : Type 0 where
  pub sent :
      length t < 2048
      → (text : List ℕ) × (vprintk arch buf fns fmt args ≡ ok (some (call_all fns text (length t))))
        × (take (length t) text ≡ t)
  pub full :
      length t ≡ 2048
      → vprintk arch buf fns fmt args ≡ ok (some (call_all fns (take 2047 t ++ 0 ∷ []) 2048))
  pub too_long : 2048 < length t → length t < 2 ^ 31 → vprintk arch buf fns fmt args ≡ ok none
  pub negative :
      2 ^ 31 ≤ length t
      → length t < 2 ^ 32
      → vprintk arch buf fns fmt args
        ≡ ok (some (call_all fns (take 2047 t ++ 0 ∷ []) (2 ^ 64 - 2 ^ 32 + length t)))

module _ (arch : ArchHook) (fmt : List ℕ) (args : List Arg) (t buf fns : List ℕ)
    (size : length buf ≡ 2048)
    (e : vprintk arch buf fns fmt args
      ≡ ok (send fns (narrow (length t), terminated buf 2048 t))) where
  of_text : Printed arch fmt args t buf fns
  of_text = record {
    sent = λ k.
        let small : narrow (length t) ≡ pos (length t) =
          narrow-small (length t) (omega (arith, k)) in
        let fits : ltb_ℤ (pos 2048) (pos (length t)) ≡ false = ground (arith, k) in
        (terminated buf 2048 t, e ∙ rw (small, fits) refl, fits_terminated buf t size k);
    full = λ k.
        let small : narrow (length t) ≡ pos (length t) =
          narrow-small (length t) (omega (arith, k)) in
        let cut = cut_terminated buf t size (omega (arith, k)) in e ∙ rw (small, cut, k) refl;
    too_long = λ k l.
        let small : narrow (length t) ≡ pos (length t) = narrow-small (length t) l in
        let long : ltb_ℤ (pos 2048) (pos (length t)) ≡ true = ground (arith, k) in
        e ∙ rw (small, long) refl;
    negative = λ k l.
        let wraps = narrow-negative (length t) k l in
        let cut = cut_terminated buf t size (omega (arith, k)) in
        let len : 2 ^ 64 - (2 ^ 32 - 1 - length t + 1) ≡ 2 ^ 64 - 2 ^ 32 + length t =
          omega (arith, k, l) in
        e
        ∙ rw (wraps, cut, below_limit (2 ^ 32 - 1 - length t))
            (ap (λ n. ok (some (call_all fns (take 2047 t ++ 0 ∷ []) n))) len);
  }

-- Given a hook that satisfies UniformHook, for a format string and its arguments either the behaviour
-- is undefined, or there is one text, whatever the buffer of 2048 bytes held before. If the text has
-- fewer than 2048 characters, vprintk() hands it to every registered callback; of one of 2048, the
-- callbacks get the first 2047 and a NUL; for one of more, up to 2 ^ 31 - 1, it panics; and for one of
-- 2 ^ 31 to 2 ^ 32 - 1 characters, whose length is negative as an int, it does not, and hands the
-- callbacks the buffer with a length above 2 ^ 63.
pub vprintk_lem :
    (arch : ArchHook) (fmt : List ℕ) (args : List Arg)
    → UniformHook arch
    → ((t : List ℕ) × ((buf fns : List ℕ) → length buf ≡ 2048 → Printed arch fmt args t buf fns))
      ⊎ ((buf fns : List ℕ) → vprintk arch buf fns fmt args ≡ fault)
unfolding vprintk
vprintk_lem arch fmt args h =
    elim (vsnprintf_internal_lem arch h fmt args (record no_flags { lf_to_crlf = true })) [
      | inl (t, e) ↦ inl (
        t,
        λ buf fns size.
            of_text arch fmt args t buf fns size (rw (e buf 2048 (omega (arith, size))) refl),
      )
      | inr e ↦ inr (λ buf fns. rw (e buf 2048) refl)
    ]
