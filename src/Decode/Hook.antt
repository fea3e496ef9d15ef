-- ===== src/Decode/Hook.antt =====
-- arch_fmt_pointer() is a hook that vsnprintf_internal() may rely on.
use Prim.Native.String.{String}
use xtf.Base.{ℕ, ◌==◌, ◌&&◌, ◌||◌, ltb, List, get_or, none, ◌^◌, ◌%◌, some}
use xtf.Base.Text.{codes}
use xtf.Base.Run.{Ends, ended, Ends-bind, Ends-split}
use xtf.Printf.Writer.{Anything, Uniform-return, Uniform-bind, Uniform-lift, Uniform-split}
use xtf.Printf.Parse.{Arg}
use xtf.Printf.Number.{no_flags}
use xtf.Printf.Contract.{vsnprintf_internal-Ends}
use xtf.Printf.Uniform.Parts.{fmt_string-Uniform}
use xtf.Printf.Uniform.Pointers.{UniformHook, advance-le}
use xtf.Decode.{
  no_hook, snprintf, x86_exc_decode_ec, x86_decode_exinfo, arch_fmt_pointer, has_selector,
  exinfo_vec, exinfo_ec, have_ec, fresh,
}

no_hook-UniformHook : UniformHook no_hook
no_hook-UniformHook fmt arg w p flags = Uniform-return none tt

snprintf-Ends :
    (buf : List ℕ) (size : ℕ) (fmt : String) (args : List Arg)
    → Ends Anything (snprintf buf size fmt args)
unfolding snprintf
snprintf-Ends buf size fmt args =
    Ends-bind
      (vsnprintf_internal-Ends no_hook no_hook-UniformHook (codes fmt) args no_flags buf size)
      λ _ _. ended tt

x86_exc_decode_ec-Ends :
    (buf : List ℕ) (size ev ec : ℕ) → Ends Anything (x86_exc_decode_ec buf size ev ec)
unfolding x86_exc_decode_ec
x86_exc_decode_ec-Ends buf size ev ec =
    Ends-split (ev == 14) (λ _. snprintf-Ends buf size _ _)
      λ _.
        Ends-split (has_selector ev && ltb 0 ec) (λ _. snprintf-Ends buf size _ _)
          (λ _. snprintf-Ends buf size _ _)

x86_decode_exinfo-Ends :
    (buf : List ℕ) (size info : ℕ) → Ends Anything (x86_decode_exinfo buf size info)
unfolding x86_decode_exinfo
x86_decode_exinfo-Ends buf size info =
    Ends-split (info == 0) (λ _. snprintf-Ends buf size _ _)
      λ _.
        Ends-split (ltb 0 (exinfo_ec info) || have_ec (exinfo_vec info))
          (λ _.
            Ends-bind (x86_exc_decode_ec-Ends fresh 16 (exinfo_vec info) (exinfo_ec info))
              λ s _. snprintf-Ends buf size _ _)
          (λ _. snprintf-Ends buf size _ _)

-- The x86 hook puts out one and the same text for every buffer, and does not move back in the format
-- string: vsnprintf_internal() keeps its promise with it.
pub arch_fmt_pointer-UniformHook : UniformHook arch_fmt_pointer
unfolding arch_fmt_pointer
arch_fmt_pointer-UniformHook fmt arg w p flags =
    Uniform-split (get_or fmt 1 0 == b'e')
      (λ _. Uniform-bind (Uniform-lift (x86_decode_exinfo-Ends fresh 16 (arg % 2 ^ 32))) λ buf _.
        Uniform-bind (fmt_string-Uniform (some buf) w p flags)
          λ _ _. Uniform-return _ (advance-le fmt))
      (λ _. Uniform-return none tt)
