-- ===== src/Xenbus/Streams.antt =====
-- The streams of bytes between the driver and xenstored, and the rounds that move them.
use xtf.Base.{
  ℕ, zero, suc, ◌+◌, ◌-◌, ◌<◌, ◌≤◌, ◌≡◌, refl, ap, ◌∙◌, sym, List, [], ◌∷◌, ◌++◌, length, take,
  drop, append_assoc, take-append-drop, arith,
}

pub join_parts :
    (R bytes : List ℕ) (part : ℕ) → (R ++ take part bytes) ++ drop part bytes ≡ R ++ bytes
join_parts R bytes part =
    append_assoc R (take part bytes) (drop part bytes)
    ∙ ap (λ t. R ++ t) (take-append-drop part bytes)

pub after_part :
    (R bytes rest : List ℕ) (part : ℕ)
    → R ++ (bytes ++ rest) ≡ (R ++ take part bytes) ++ (drop part bytes ++ rest)
after_part R bytes rest part =
    ap (λ t. R ++ (t ++ rest)) (sym (take-append-drop part bytes))
    ∙ ap (λ t. R ++ t) (append_assoc (take part bytes) (drop part bytes) rest)
    ∙ sym (append_assoc R (take part bytes) (drop part bytes ++ rest))

pub append_cancel : (a b c : List ℕ) → a ++ b ≡ a ++ c → b ≡ c
append_cancel [] b c e = e
append_cancel (x ∷ a) b c e = append_cancel a b c (ap (drop 1) e)

pub take-append : (n : ℕ) (a b : List ℕ) → n ≤ length a → take n (a ++ b) ≡ take n a
take-append zero a b h = refl
take-append (suc n) [] b h = absurd (omega arith)
take-append (suc n) (x ∷ a) b h = ap (◌∷◌ x) (take-append n a b (omega arith))

pub drop-append : (n : ℕ) (a b : List ℕ) → n ≤ length a → drop n (a ++ b) ≡ drop n a ++ b
drop-append zero a b h = refl
drop-append (suc n) [] b h = absurd (omega arith)
drop-append (suc n) (x ∷ a) b h = drop-append n a b (omega arith)

pub shrinks : (k n : ℕ) → (0 < n → 0 < k) → n ≤ 1023 → n - k < 1023
shrinks zero zero accepts h = omega arith
shrinks zero (suc n) accepts h = omega (arith, accepts (omega arith))
shrinks (suc k) n accepts h = omega arith

-- the bytes taken, and those that are left of the queue
pub taken_and_left :
    (k : ℕ) (q before chunk W after : List ℕ)
    → after ≡ before ++ take k q
    → before ++ q ≡ W
    → after ++ (drop k q ++ chunk) ≡ W ++ chunk
taken_and_left k q before chunk W after e w =
    ap (λ t. t ++ (drop k q ++ chunk)) e
    ∙ append_assoc before (take k q) (drop k q ++ chunk)
    ∙ ap (λ t. before ++ t) (sym (append_assoc (take k q) (drop k q) chunk))
    ∙ ap (λ t. before ++ (t ++ chunk)) (take-append-drop k q)
    ∙ sym (append_assoc before q chunk)
    ∙ ap (λ t. t ++ chunk) w

pub empty : (s : List ℕ) → length s ≡ 0 → s ≡ []
empty [] e = refl
empty (x ∷ s) e = absurd (omega (arith, e))

-- What the driver reads next is a part of what it waits for.
pub front_of_answer :
    (r owed u bytes rest : List ℕ) (part : ℕ)
    → r ++ (owed ++ u) ≡ bytes ++ rest
    → part ≤ length r
    → part ≤ length bytes
    → take part r ≡ take part bytes
front_of_answer r owed u bytes rest part e h k =
    sym (take-append part r (owed ++ u) h) ∙ ap (take part) e ∙ take-append part bytes rest k

-- What is in the ring, what is owed and what is answered later are what the driver waits for.
pub streams_agree :
    (reply : List ℕ → List ℕ) (R W r owed u awaited sent taken left : List ℕ)
    → reply W ≡ R ++ awaited
    → taken ++ left ≡ W
    → reply (taken ++ left) ≡ reply taken ++ u
    → reply taken ≡ sent ++ owed
    → sent ≡ R ++ r
    → r ++ (owed ++ u) ≡ awaited
streams_agree reply R W r owed u awaited sent taken left answer whole later owes arrived =
    append_cancel R (r ++ (owed ++ u)) awaited (
      sym (append_assoc R r (owed ++ u))
      ∙ ap (λ t. t ++ (owed ++ u)) (sym arrived)
      ∙ sym (append_assoc sent owed u)
      ∙ ap (λ t. t ++ u) (sym owes)
      ∙ sym later
      ∙ ap reply whole
      ∙ answer)

pub advances :
    (k q r more part : ℕ)
    → (0 < q → 0 < k)
    → (q ≡ 0 → r ≡ 0 → 0 < more)
    → (0 < r + more → 0 < part)
    → q - k < q + part
advances k (suc q) r more part accepts answers moves = omega (arith, accepts (omega arith))
advances k zero (suc r) more part accepts answers moves = omega (arith, moves (omega arith))
advances k zero zero more part accepts answers moves =
    omega (arith, moves (omega (arith, answers refl refl)))
