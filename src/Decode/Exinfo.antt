-- ===== src/Decode/Exinfo.antt =====
-- What arch/x86/decode.c says of an exception.
use Prim.Native.String.{String}
use xtf.Base.{
  ℕ, suc, zero, ◌/◌, ◌%◌, ◌^◌, ◌<◌, ◌≡◌, refl, ap, ◌==◌, ◌||◌, map, ltb, Bool, false, true, List,
  [], ◌∷◌, ◌++◌, length, some, take, get_or, Bool-cases, inl, inr, length-take, arith,
}
use xtf.Base.Int.{ℤ}
use xtf.Base.Text.{codes}
use xtf.Base.Run.{ok}
use xtf.Printf.Out.{Out, emit}
use xtf.Printf.Number.{Flags}
use xtf.Printf.Buffer.{overwrite, terminated}
use xtf.Printf.Pointer.{advance}
use xtf.Printf.Writer.{lift}
use xtf.Printf.Str.Text.{string_text, shown, fmt_string_lem}
use xtf.CString.Length.{IsText}
use xtf.Decode.{
  x86_exc_short_name, x86_decode_exinfo, arch_fmt_pointer, fresh, exinfo_vec, exinfo_ec,
}
use xtf.Decode.Text.{nothing, one_string, two_strings}
use xtf.Decode.Code.{
  names_selector, CodeText, IsText-append, has_no_nul, checked, all_checked, get_or-IsText,
  snprintf_lem, decode_ec-fresh,
}

-- the processor manual's mnemonics by their vectors
abbrev pub mnemonics : List String
mnemonics =
    "#DE" ∷ "#DB" ∷ "#NMI" ∷ "#BP" ∷ "#OF" ∷ "#BR" ∷ "#UD" ∷ "#NM" ∷ "#DF" ∷ "#CSO" ∷ "#TS" ∷ "#NP"
    ∷ "#SS" ∷ "#GP" ∷ "#PF" ∷ "#SPV" ∷ "#MF" ∷ "#AC" ∷ "#MC" ∷ "#XM" ∷ "#VE" ∷ []

-- the name of a vector
abbrev pub name_of : ℕ → List ℕ
name_of vec = get_or (map codes mnemonics) vec (codes "??")

name_of-IsText : (vec : ℕ) → IsText (name_of vec)
unfolding all_checked has_no_nul
name_of-IsText vec =
    get_or-IsText (map codes mnemonics) vec (codes "??") refl (checked (codes "??") refl)

-- What is in a buffer of 16 bytes: the first 15 characters, and a NUL.
overwrite-split :
    (mem s : List ℕ)
    → length s < length mem
    → (rest : List ℕ) × (overwrite mem (s ++ 0 ∷ []) ≡ s ++ 0 ∷ rest)
unfolding overwrite
overwrite-split [] s h = absurd (omega (arith, h))
overwrite-split (b ∷ mem) [] h = (mem, refl)
overwrite-split (b ∷ mem) (c ∷ s) h =
    let (rest, e) = overwrite-split mem s (omega (arith, h)) in (rest, ap (◌∷◌ c) e)

cut_off : (t : List ℕ) → (rest : List ℕ) × (terminated fresh 16 t ≡ take 15 t ++ 0 ∷ rest)
unfolding terminated
cut_off t = overwrite-split fresh (take 15 t) (omega (arith, length-take 15 t))

take-IsText : (n : ℕ) (s : List ℕ) → IsText s → IsText (take n s)
take-IsText zero s h = tt
take-IsText (suc n) [] h = tt
take-IsText (suc n) (c ∷ s) h = (h.0, take-IsText n s h.1)

abbrev vector : ℕ → ℕ
vector info = info / 2 ^ 16 % 256

abbrev code : ℕ → ℕ
code info = info % 2 ^ 16

-- an error code, or an exception that has one
abbrev pub shows_code : ℕ → ℕ → Bool
shows_code vec ec = ltb 0 ec || (vec == 8 || (vec == 14 || names_selector vec))

-- The text of an exception: its name, and what is kept of the text of its error code in 15 characters.
pub data ExceptionText (info : ℕ) : List ℕ → Type 0 where
  no_exception : (info == 0) ≡ true → ExceptionText info (codes "nothing")
  with_code :
      (t : List ℕ)
      → (info == 0) ≡ false
      → shows_code (info / 2 ^ 16 % 256) (info % 2 ^ 16) ≡ true
      → CodeText (info / 2 ^ 16 % 256) (info % 2 ^ 16) t
      → ExceptionText info (name_of (info / 2 ^ 16 % 256) ++ (b'[' ∷ (take 15 t ++ (b']' ∷ []))))
  name_alone :
      (info == 0) ≡ false
      → shows_code (info / 2 ^ 16 % 256) (info % 2 ^ 16) ≡ false
      → ExceptionText info (name_of (info / 2 ^ 16 % 256))

x86_decode_exinfo_lem :
    (info : ℕ)
    → (t : List ℕ) × ExceptionText info t
      × IsText t
      × (x86_decode_exinfo fresh 16 info ≡ ok (terminated fresh 16 t))
unfolding x86_decode_exinfo exinfo_vec exinfo_ec x86_exc_short_name has_no_nul
x86_decode_exinfo_lem info = elim (Bool-cases (info == 0)) [
  | inl none_there ↦ (
    codes "nothing",
    no_exception none_there,
    checked (codes "nothing") refl,
    rw none_there (snprintf_lem fresh 16 "nothing" [] (codes "nothing") (omega arith) nothing),
  )
  | inr some_there ↦ elim (Bool-cases (shows_code (vector info) (code info))) [
    | inl shown_code ↦
        let (t, c, h, e) = decode_ec-fresh (vector info) (code info) (omega arith) in
        let (rest, split) = cut_off t in
        let part = take-IsText 15 t h in
        let name = name_of-IsText (vector info) in
        (
          _,
          with_code t some_there shown_code c,
          IsText-append (name_of (vector info)) _ name
              (λ z. omega (arith, z), IsText-append (take 15 t) _ part (λ z. omega (arith, z), tt)),
          rw (some_there, shown_code, e, split)
              (snprintf_lem fresh 16 _ _ _ (omega arith)
                (two_strings (name_of (vector info)) (take 15 t) rest name part)),
        )
    | inr no_code ↦
        let name = name_of-IsText (vector info) in
        (
          _,
          name_alone some_there no_code,
          name,
          rw (some_there, no_code)
              (snprintf_lem fresh 16 _ _ _ (omega arith) (one_string (name_of (vector info)) name)),
        )
  ]
]

-- At "%pe" arch_fmt_pointer() puts out the text of the exception whose vector and error code are in the low
-- 32 bits of the pointer, cut off behind 15 characters, as fmt_string() does with the width, the
-- precision and the flags, and steps over one character of the format.
pub arch_fmt_pointer_lem :
    (fmt : List ℕ) (arg : ℕ) (width precision : ℤ) (flags : Flags)
    → get_or fmt 1 0 ≡ b'e'
    → (t : List ℕ) × ExceptionText (arg % 2 ^ 32) t
      × ((o : Out)
          → arch_fmt_pointer fmt arg width precision flags o
            ≡ ok (
              some (advance fmt),
              emit (string_text flags width (shown (take 15 t) precision)) o,
            ))
unfolding arch_fmt_pointer lift
arch_fmt_pointer_lem fmt arg width precision flags e =
    let (t, x, h, d) = x86_decode_exinfo_lem (arg % 2 ^ 32) in
    let (rest, split) = cut_off t in
    let here : (get_or fmt 1 0 == b'e') ≡ true = ground (arith, e) in
    (
      t,
      x,
      λ o.
          rw
            (
              here,
              d,
              split,
              fmt_string_lem (take 15 t) rest width precision flags o (take-IsText 15 t h),
            )
            refl,
    )
