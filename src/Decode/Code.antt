-- ===== src/Decode/Code.antt =====
-- What arch/x86/decode.c says of an error code.
use Prim.Native.String.{String}
use xtf.Base.{
  ℕ, suc, zero, ◌/◌, ◌%◌, ◌-◌, ◌^◌, ◌<◌, ◌≤◌, ◌≡◌, ◌≢◌, refl, ap, sym, ◌∙◌, ◌==◌, ◌&&◌, ◌||◌, not,
  ltb, Bool, false, true, if◌then◌else◌, List, [], ◌∷◌, ◌++◌, length, some, replicate, get_or,
  Bool-cases, inl, inr, All, All-append, arith,
}
use xtf.Base.Int.{negsuc}
use xtf.Base.Text.{codes}
use xtf.Base.Run.{ok, ◌>>=◌}
use xtf.Printf.Out.{Out, emit}
use xtf.Printf.Parse.{Arg, int, str}
use xtf.Printf.Number.{no_flags, fmt_number, digit}
use xtf.Printf.Number.Digits.{IsDigit}
use xtf.Printf.Number.Spec.{IsNumeral}
use xtf.Printf.Format.{vsnprintf_internal, finish}
use xtf.Printf.Buffer.{terminated, emit_lem, terminate_lem}
use xtf.CString.Length.{IsText}
use xtf.Decode.{snprintf, x86_exc_decode_ec, fresh}
use xtf.Decode.Text.{Puts, six, selector, four_digits, decimal, hexadecimal}

abbrev pub letter : (ec n : ℕ) (set clear : ℕ) → ℕ
letter ec n set clear = if ec / 2 ^ n % 2 == 1 then set else clear

abbrev pub names_selector : ℕ → Bool
names_selector vec = vec == 10 || vec == 11 || vec == 12 || vec == 13 || vec == 17

-- The text of an error code: the bits of that of a page fault; the table, the index and the external bit where it names
-- a descriptor; and else four hexadecimal digits or more.
pub data CodeText (vec ec : ℕ) : List ℕ → Type 0 where
  page_fault :
      (vec == 14) ≡ true
      → CodeText vec ec (
          letter ec 5 b'K' b'-'
          ∷ letter ec 4 b'I' b'd'
          ∷ letter ec 3 b'R' b'-'
          ∷ letter ec 2 b'U' b's'
          ∷ letter ec 1 b'W' b'r'
          ∷ letter ec 0 b'P' b'-'
          ∷ [])
  descriptor :
      (digits : List ℕ)
      → (names_selector vec && ltb 0 ec) ≡ true
      → IsNumeral false 10 (ec / 8) digits
      → CodeText vec ec (
          (if ec / 2 ^ 1 % 2 == 1 then b'I' else letter ec 2 b'L' b'G')
          ∷ b'D'
          ∷ b'T'
          ∷ b'['
          ∷ (digits ++ (b']' ∷ (if ec / 2 ^ 0 % 2 == 1 then codes ",EXT" else []))))
  plain :
      (digits : List ℕ)
      → (vec == 14) ≡ false
      → (names_selector vec && ltb 0 ec) ≡ false
      → IsNumeral false 16 ec digits
      → CodeText vec ec (replicate (4 - length digits) b'0' ++ digits)

-- a string behind a format that puts out `t`
pub snprintf_lem :
    (buf : List ℕ) (size : ℕ) (fmt : String) (args : List Arg) (t : List ℕ)
    → size ≤ length buf
    → Puts fmt args t
    → snprintf buf size fmt args ≡ ok (terminated buf size t)
unfolding snprintf vsnprintf_internal
snprintf_lem buf size fmt args t h p =
    let start : Out = record { mem = buf; str = 0; end = size; overrun = false } in
    ap (λ r. finish r >>= λ (_, buf'). ok buf') (p start)
    ∙ rw (emit_lem buf t size h, terminate_lem buf t size h) refl

pub IsText-append : (s t : List ℕ) → IsText s → IsText t → IsText (s ++ t)
IsText-append s t h k = All-append (λ c. c ≢ 0) s t h k

-- a string that can be looked through
unfoldable pub has_no_nul : List ℕ → Bool
has_no_nul [] = true
has_no_nul (c ∷ s) = not (c == 0) && has_no_nul s

pub checked : (s : List ℕ) → has_no_nul s ≡ true → IsText s
unfolding has_no_nul
checked [] h = tt
checked (c ∷ s) h = (λ z. ground (arith, h, z), checked s (ground (arith, h)))

unfoldable pub all_checked : List (List ℕ) → Bool
all_checked [] = true
all_checked (s ∷ l) = has_no_nul s && all_checked l

pub get_or-IsText :
    (l : List (List ℕ)) (i : ℕ) (d : List ℕ)
    → all_checked l ≡ true
    → IsText d
    → IsText (get_or l i d)
unfolding all_checked
get_or-IsText [] i d h k = k
get_or-IsText (s ∷ l) zero d h k = checked s (ground (arith, h))
get_or-IsText (s ∷ l) (suc i) d h k = get_or-IsText l i d (ground (arith, h)) k

small : (c : ℕ) → c < 256 → c % 2 ^ 32 % 256 ≡ c
small c h = omega (arith, h)

letter-below : (b : Bool) (x y : ℕ) → x < 256 → y < 256 → (if b then x else y) < 256
letter-below true x y h k = h
letter-below false x y h k = k

letter-nonzero : (b : Bool) (x y : ℕ) → x ≢ 0 → y ≢ 0 → (if b then x else y) ≢ 0
letter-nonzero true x y h k = h
letter-nonzero false x y h k = k

six_letters :
    (a b c d e f : ℕ)
    → a < 256
    → b < 256
    → c < 256
    → d < 256
    → e < 256
    → f < 256
    → Puts "%c%c%c%c%c%c"
        (int a ∷ int b ∷ int c ∷ int d ∷ int e ∷ int f ∷ [])
        (a ∷ b ∷ c ∷ d ∷ e ∷ f ∷ [])
six_letters a b c d e f ha hb hc hd he hf o =
    rw (small a ha, small b hb, small c hc, small d hd, small e he, small f hf) at
      (six a b c d e f o)

table_entry :
    (c sel : ℕ) (digits : List ℕ) (ext : Bool)
    → c < 256
    → ((o : Out)
        → fmt_number (sel % 2 ^ 32 % 2 ^ 32) 10 (negsuc 0) (negsuc 0) no_flags o
          ≡ ok (emit digits o))
    → Puts "%cDT[%u]%s"
        (int c ∷ int sel ∷ str (some (if ext then codes ",EXT" ++ 0 ∷ [] else 0 ∷ [])) ∷ [])
        (c ∷ b'D' ∷ b'T' ∷ b'[' ∷ (digits ++ (b']' ∷ (if ext then codes ",EXT" else []))))
unfolding has_no_nul
table_entry c sel digits true h p o =
    rw (small c h) at (selector c sel digits (codes ",EXT") p (checked (codes ",EXT") refl) o)
table_entry c sel digits false h p o = rw (small c h) at (selector c sel digits [] p tt o)

digit-nonzero : (d : ℕ) → digit false d ≢ 0
unfolding digit
digit-nonzero d e = ground (arith, e)

digits-IsText : (base : ℕ) (s : List ℕ) → All (IsDigit false base) s → IsText s
digits-IsText base [] h = tt
digits-IsText base (c ∷ s) h =
    let (d, lt, e) = h.0 in (λ z. digit-nonzero d (sym e ∙ z), digits-IsText base s h.1)

zeros-IsText : (n : ℕ) → IsText (replicate n b'0')
zeros-IsText zero = tt
zeros-IsText (suc n) = (λ z. omega (arith, z), zeros-IsText n)

pub decode_ec-fresh :
    (vec ec : ℕ)
    → ec < 2 ^ 16
    → (t : List ℕ) × CodeText vec ec t
      × IsText t
      × (x86_exc_decode_ec fresh 16 vec ec ≡ ok (terminated fresh 16 t))
unfolding x86_exc_decode_ec has_no_nul
decode_ec-fresh vec ec h = elim (Bool-cases (vec == 14)) [
  | inl pf ↦ (
    _,
    page_fault pf,
    (
      letter-nonzero (ec / 2 ^ 5 % 2 == 1) b'K' b'-' (λ z. omega (arith, z))
          (λ z. omega (arith, z)),
      (
        letter-nonzero (ec / 2 ^ 4 % 2 == 1) b'I' b'd' (λ z. omega (arith, z))
            (λ z. omega (arith, z)),
        (
          letter-nonzero (ec / 2 ^ 3 % 2 == 1) b'R' b'-' (λ z. omega (arith, z))
              (λ z. omega (arith, z)),
          (
            letter-nonzero (ec / 2 ^ 2 % 2 == 1) b'U' b's' (λ z. omega (arith, z))
                (λ z. omega (arith, z)),
            (
              letter-nonzero (ec / 2 ^ 1 % 2 == 1) b'W' b'r' (λ z. omega (arith, z))
                  (λ z. omega (arith, z)),
              (
                letter-nonzero (ec / 2 ^ 0 % 2 == 1) b'P' b'-' (λ z. omega (arith, z))
                    (λ z. omega (arith, z)),
                tt,
              ),
            ),
          ),
        ),
      ),
    ),
    rw pf (
        snprintf_lem fresh 16 _ _ _ (omega arith) (
          six_letters _ _ _ _ _ _
            (letter-below (ec / 2 ^ 5 % 2 == 1) b'K' b'-' (omega arith) (omega arith))
            (letter-below (ec / 2 ^ 4 % 2 == 1) b'I' b'd' (omega arith) (omega arith))
            (letter-below (ec / 2 ^ 3 % 2 == 1) b'R' b'-' (omega arith) (omega arith))
            (letter-below (ec / 2 ^ 2 % 2 == 1) b'U' b's' (omega arith) (omega arith))
            (letter-below (ec / 2 ^ 1 % 2 == 1) b'W' b'r' (omega arith) (omega arith))
            (letter-below (ec / 2 ^ 0 % 2 == 1) b'P' b'-' (omega arith) (omega arith)))),
  )
  | inr other ↦ elim (Bool-cases (names_selector vec && ltb 0 ec)) [
    | inl sel ↦
        let (digits, n, p) = decimal (ec / 8) (omega (arith, h)) in
        let table = if ec / 2 ^ 1 % 2 == 1 then b'I' else letter ec 2 b'L' b'G' in
        let few : table < 256 =
          letter-below (ec / 2 ^ 1 % 2 == 1) b'I' (letter ec 2 b'L' b'G') (omega arith)
            (letter-below (ec / 2 ^ 2 % 2 == 1) b'L' b'G' (omega arith) (omega arith)) in
        (
          _,
          descriptor digits sel n,
          (
            letter-nonzero (ec / 2 ^ 1 % 2 == 1) b'I' (letter ec 2 b'L' b'G')
                (λ z. omega (arith, z))
                (letter-nonzero (ec / 2 ^ 2 % 2 == 1) b'L' b'G' (λ z. omega (arith, z))
                  (λ z. omega (arith, z))),
            (
              λ z. omega (arith, z),
              (
                λ z. omega (arith, z),
                (
                  λ z. omega (arith, z),
                  IsText-append digits _ (digits-IsText 10 digits n.chars)
                      (λ z. omega (arith, z), extension (ec / 2 ^ 0 % 2 == 1)),
                ),
              ),
            ),
          ),
          rw (other, sel)
              (snprintf_lem fresh 16 _ _ _ (omega arith)
                (table_entry table (ec / 8) digits (ec / 2 ^ 0 % 2 == 1) few p)),
        )
    | inr no_sel ↦
        let (digits, n, p) = hexadecimal ec (omega (arith, h)) in
        (
          _,
          plain digits other no_sel n,
          IsText-append _ digits (zeros-IsText (4 - length digits))
              (digits-IsText 16 digits n.chars),
          rw (other, no_sel) (snprintf_lem fresh 16 _ _ _ (omega arith) (four_digits ec _ p)),
        )
  ]
]
  where
    extension : (b : Bool) → IsText (if b then codes ",EXT" else [])
    extension true = checked (codes ",EXT") refl
    extension false = tt
