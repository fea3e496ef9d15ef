-- ===== src/Printf/Contract.antt =====
-- What vsnprintf_internal() promises to its callers.
use xtf.Base.{ℕ, ◌≤◌, ◌≡◌, ◌⊎◌, inl, inr, List, length, ◌∙◌, ap}
use native.Mathlib.Nat.{le_refl}
use xtf.Base.Int.{narrow}
use xtf.Base.Run.{Run, ok, fault, Ends, ended, faulted, Ends-split}
use xtf.Printf.Out.{Out}
use xtf.Printf.Number.{Flags}
use xtf.Printf.Writer.{Uniform, emits, undefined_behaviour, Anything}
use xtf.Printf.Pointer.{ArchHook}
use xtf.Printf.Parse.{Arg}
use xtf.Printf.Format.{format_loop, finish, terminate, vsnprintf_internal}
use xtf.Printf.Uniform.Pointers.{UniformHook}
use xtf.Printf.Uniform.Loop.{format_loop-Uniform}
use xtf.Printf.Buffer.{terminated, emit_lem, terminate_lem}

module _ (arch : ArchHook) (h : UniformHook arch) (fmt : List ℕ) (args : List Arg)
    (flags : Flags) where
  -- one text for all buffers of at least `size` bytes, or undefined behaviour for all
  abbrev Promise : Type 0
  Promise =
      ((t : List ℕ) × ((buf : List ℕ) (size : ℕ)
          → size ≤ length buf
          → vsnprintf_internal arch buf size fmt args flags
            ≡ ok (narrow (length t), terminated buf size t)))
      ⊎ ((buf : List ℕ) (size : ℕ) → vsnprintf_internal arch buf size fmt args flags ≡ fault)

  -- what the property says, from the uniformity of the loop
  of_Uniform : Uniform Anything (format_loop arch flags (length fmt) fmt args) → Promise
  unfolding vsnprintf_internal
  of_Uniform (emits x t p e) = inl (
    t,
    λ buf size fits.
        ap finish (e _) ∙ rw (emit_lem buf t size fits) (terminate_lem buf t size fits),
  )
  of_Uniform (undefined_behaviour e) = inr (λ buf size. ap finish (e _))

  -- Given a hook that satisfies UniformHook, for a format string and its arguments either there is
  -- one text such that, for every size, 0 included, and every buffer of at least that many bytes,
  -- vsnprintf_internal() returns, makes no access outside of the buffer, leaves in its first `size`
  -- bytes the text and a NUL, cut off to fit, and changes nothing else; its result is the length of
  -- the whole text, converted to int: the low 32 bits as a two's complement. Or the behaviour is
  -- undefined for every buffer. It ends in any case.
  pub vsnprintf_internal_lem :
      ((t : List ℕ) × ((buf : List ℕ) (size : ℕ)
          → size ≤ length buf
          → vsnprintf_internal arch buf size fmt args flags
            ≡ ok (narrow (length t), terminated buf size t)))
      ⊎ ((buf : List ℕ) (size : ℕ) → vsnprintf_internal arch buf size fmt args flags ≡ fault)
  vsnprintf_internal_lem =
      of_Uniform (format_loop-Uniform arch h flags (length fmt) fmt args (le_refl _))

  finished : {r : Run (Unit {0} × Out)} → Ends Anything r → Ends Anything (finish r)
  finished faulted = faulted
  finished (ended {x = x} p) = Ends-split (terminate x.1).overrun (λ _. faulted) (λ _. ended tt)

  format_loop-Ends :
      (o : Out)
      → Uniform Anything (format_loop arch flags (length fmt) fmt args)
      → Ends Anything (format_loop arch flags (length fmt) fmt args o)
  format_loop-Ends o (emits x t p e) = rw (e o) (ended tt)
  format_loop-Ends o (undefined_behaviour e) = rw (e o) faulted

  -- whatever the size of the buffer
  pub vsnprintf_internal-Ends :
      (buf : List ℕ) (size : ℕ) → Ends Anything (vsnprintf_internal arch buf size fmt args flags)
  unfolding vsnprintf_internal
  vsnprintf_internal-Ends buf size =
      finished
        (format_loop-Ends _ (format_loop-Uniform arch h flags (length fmt) fmt args (le_refl _)))
