-- ===== src/Printf/Writer.antt =====
-- The functions of common/libc/vsnprintf.c that put out text: each takes the output buffer and
-- returns it beside its result.
use xtf.Base.{ℕ, ◌≡◌, refl, Bool, true, false, if◌then◌else◌, List, [], ◌∷◌, ◌++◌}
use xtf.Base.Run.{Run, ok, fault, out_of_fuel, Ends, ended, faulted}
use xtf.Printf.Out.{Out, put, emit, emit-append}

abbrev pub M {ℓ} : Type ℓ → Type ℓ
M X = Out → Run (X × Out)

abbrev pub bind_run {ℓ κ} : {A : Type ℓ} {B : Type κ} → Run (A × Out) → (A → M B) → Run (B × Out)
bind_run (ok (a, o)) f = f a o
bind_run fault f = fault
bind_run out_of_fuel f = out_of_fuel

infixl 5 ◌>>=◌ ◌>>◌
abbrev pub ◌>>=◌ {ℓ κ} : {A : Type ℓ} {B : Type κ} → M A → (A → M B) → M B
◌>>=◌ m f o = bind_run (m o) f

abbrev pub ◌>>◌ {ℓ} : {B : Type ℓ} → M (Unit {0}) → M B → M B
m >> k = m >>= λ _. k

abbrev pub return {ℓ} : {A : Type ℓ} → A → M A
return a o = ok (a, o)

-- undefined behaviour
abbrev pub undefined {ℓ} : {A : Type ℓ} → M A
undefined o = fault

-- a step that neither reads nor writes the buffer
unfoldable pub lift {ℓ} : {A : Type ℓ} → Run A → M A
lift (ok a) o = ok (a, o)
lift fault o = fault
lift out_of_fuel o = out_of_fuel

-- a function that returns the buffer alone
abbrev pub out_run : Run Out → Run (Unit {0} × Out)
out_run (ok o) = ok (tt, o)
out_run fault = fault
out_run out_of_fuel = out_of_fuel

abbrev pub writing : (Out → Run Out) → M (Unit {0})
writing f o = out_run (f o)

-- `PUT(c)`
abbrev pub put_char : ℕ → M (Unit {0})
put_char c o = ok (tt, put c o)

-- `if ( test ) PUT(c)`
abbrev pub put_if : Bool → ℕ → M (Unit {0})
put_if test c = if test then put_char c else return tt

-- `f` puts out one and the same text and returns one and the same value, which satisfies `P`,
-- whatever the output buffer is; or its behaviour is undefined, whatever that is.
pub data Uniform {ℓ κ} {X : Type ℓ} (P : X → Type κ) (f : M X) : Type (ℓ ⊔ κ) where
  emits : (x : X) (t : List ℕ) → P x → ((o : Out) → f o ≡ ok (x, emit t o)) → Uniform P f
  undefined_behaviour : ((o : Out) → f o ≡ fault) → Uniform P f

module _ {ℓ κ} {X : Type ℓ} {P : X → Type κ} where
  pub Uniform-return : (x : X) → P x → Uniform P (return x)
  unfolding emit
  Uniform-return x p = emits x [] p (λ o. refl)

  pub Uniform-undefined : Uniform P (undefined {A = X})
  Uniform-undefined = undefined_behaviour (λ o. refl)

  pub Uniform-weaken {κ'} :
      {Q : X → Type κ'} {f : M X} → Uniform P f → ((x : X) → P x → Q x) → Uniform Q f
  Uniform-weaken (emits x t p e) k = emits x t (k x p) e
  Uniform-weaken (undefined_behaviour e) k = undefined_behaviour e

  pub Uniform-split :
      {f g : M X} (b : Bool)
      → (b ≡ true → Uniform P f)
      → (b ≡ false → Uniform P g)
      → Uniform P (if b then f else g)
  Uniform-split true p q = p refl
  Uniform-split false p q = q refl

module _ {ℓ κ} {X : Type ℓ} {Y : Type κ} (f : M X) (g : X → M Y) where
  -- behind a step that puts out `t` and returns `x`
  Uniform-after {κ'} :
      {Q : Y → Type κ'} (x : X) (t : List ℕ)
      → ((o : Out) → f o ≡ ok (x, emit t o))
      → Uniform Q (g x)
      → Uniform Q (f >>= g)
  Uniform-after x t e (emits y s q d) =
      emits y (t ++ s) q (λ o. rw (e o, d (emit t o), emit-append t s o))
  Uniform-after x t e (undefined_behaviour d) = undefined_behaviour (λ o. rw (e o, d (emit t o)))

module _ {ℓ κ ℓ' κ'} {X : Type ℓ} {P : X → Type κ} {Y : Type ℓ'} {Q : Y → Type κ'} where
  pub Uniform-bind :
      {f : M X} {g : X → M Y}
      → Uniform P f
      → ((x : X) → P x → Uniform Q (g x))
      → Uniform Q (f >>= g)
  Uniform-bind {f} {g} (emits x t p e) k = Uniform-after f g x t e (k x p)
  Uniform-bind (undefined_behaviour e) k = undefined_behaviour (λ o. rw (e o))

abbrev pub Anything {ℓ} : {X : Type ℓ} → X → Type 0
Anything x = Unit

pub Uniform-put : (c : ℕ) → Uniform Anything (put_char c)
unfolding emit
Uniform-put c = emits tt (c ∷ []) tt (λ o. refl)

pub Uniform-put_if : (b : Bool) (c : ℕ) → Uniform Anything (put_if b c)
Uniform-put_if true c = Uniform-put c
Uniform-put_if false c = Uniform-return tt tt

pub Uniform-lift {ℓ κ} : {A : Type ℓ} {P : A → Type κ} {r : Run A} → Ends P r → Uniform P (lift r)
unfolding lift
Uniform-lift (ended p) = Uniform-return _ p
Uniform-lift faulted = Uniform-undefined
