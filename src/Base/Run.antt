-- ===== src/Base/Run.antt =====
-- How a call of the C code ends, with the rules for calls that end well.
use xtf.Base.{◌≡◌, refl, Bool, true, false, Option, none, some, if◌then◌else◌}

-- A loop of the model that used up its fuel; undefined behaviour, such as an access outside an
-- object; or a returned value.
pub data Run {ℓ} (X : Type ℓ) : Type ℓ where
  out_of_fuel fault : Run X
  ok : X → Run X

-- a call and what the caller does with its result
abbrev pub ◌>>=◌ {ℓ ℓ'} : {X : Type ℓ} {Y : Type ℓ'} → Run X → (X → Run Y) → Run Y
out_of_fuel >>= continue = out_of_fuel
fault >>= continue = fault
ok result >>= continue = continue result

infixl 5 ◌>>=◌
-- A missing value is an access outside an object.
abbrev pub or_fault {ℓ} : {X : Type ℓ} → Option X → Run X
or_fault none = fault
or_fault (some x) = ok x

-- `Post` holds of what the call returns, and it does return.
pub data Returns {ℓ ℓ'} {X : Type ℓ} (Post : X → Type ℓ') : (call : Run X) → Type (ℓ ⊔ ℓ') where
  returned : {x : X} (holds : Post x) → Returns Post (ok x)

-- the value that was returned
pub Returns-ok {ℓ ℓ'} :
    {X : Type ℓ} {Post : X → Type ℓ'} {call : Run X}
    → Returns Post call
    → (x : X) × (call ≡ ok x) × Post x
Returns-ok (returned holds) = (_, refl, holds)

pub Returns-split {ℓ ℓ'} :
    {X : Type ℓ} {Post : X → Type ℓ'} {taken other : Run X} (test : Bool)
    → (test ≡ true → Returns Post taken)
    → (test ≡ false → Returns Post other)
    → Returns Post (if test then taken else other)
Returns-split false at_taken at_other = at_other refl
Returns-split true at_taken at_other = at_taken refl

pub Returns-weaken {ℓ ℓ' κ} :
    {X : Type ℓ} {Strong : X → Type ℓ'} {Weak : X → Type κ} {call : Run X}
    → Returns Strong call
    → ((x : X) → Strong x → Weak x)
    → Returns Weak call
Returns-weaken (returned holds) weaker = returned (weaker _ holds)

pub Returns-bind {ℓ ℓ' κ κ'} :
    {X : Type ℓ} {Mid : X → Type ℓ'} {Y : Type κ} {Post : Y → Type κ'} {call : Run X}
    {continue : X → Run Y}
    → Returns Mid call
    → ((x : X) → Mid x → Returns Post (continue x))
    → Returns Post (call >>= continue)
Returns-bind (returned holds) rest = rest _ holds

-- A call that ends, well or not: what it returns satisfies `Post`.
pub data Ends {ℓ ℓ'} {X : Type ℓ} (Post : X → Type ℓ') : (call : Run X) → Type (ℓ ⊔ ℓ') where
  faulted : Ends Post fault
  ended : {x : X} (holds : Post x) → Ends Post (ok x)

pub Ends-bind {ℓ ℓ' κ κ'} :
    {X : Type ℓ} {Mid : X → Type ℓ'} {Y : Type κ} {Post : Y → Type κ'} {call : Run X}
    {continue : X → Run Y}
    → Ends Mid call
    → ((x : X) → Mid x → Ends Post (continue x))
    → Ends Post (call >>= continue)
Ends-bind faulted rest = faulted
Ends-bind (ended holds) rest = rest _ holds

pub Ends-split {ℓ ℓ'} :
    {X : Type ℓ} {Post : X → Type ℓ'} {taken other : Run X} (test : Bool)
    → (test ≡ true → Ends Post taken)
    → (test ≡ false → Ends Post other)
    → Ends Post (if test then taken else other)
Ends-split false at_taken at_other = at_other refl
Ends-split true at_taken at_other = at_taken refl
