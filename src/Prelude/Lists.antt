-- ===== src/Prelude/Lists.antt =====
-- Lists over the native numbers, in the operations that table queries use.
use Prim.Native.Nat.{ℕ, zero, suc, ◌+◌, ◌≤◌}
use mathlib.Core.Path.{◌≡◌, refl}
use mathlib.Core.Bool.{Bool, true, false, not, ◌||◌}
use mathlib.Core.Logic.{◌⊎◌, inl, inr}
use mathlib.Core.Option.{Option, none, some}
use mathlib.Core.List.{List, [], ◌∷◌, ◌++◌}
use native.Mathlib.Omega.{arith}
use whatsapp_bot.Prelude.Tests.{if◌then◌else◌, Bool-cases}

module _ {ℓ} {A : Type ℓ} where
  abbrev pub length : List A → ℕ
  length [] = 0
  length (x ∷ xs) = suc (length xs)

  abbrev pub take : ℕ → List A → List A
  take zero xs = []
  take (suc n) [] = []
  take (suc n) (x ∷ xs) = x ∷ take n xs

  -- The rows that a `WHERE` clause keeps.
  abbrev pub where_ : (A → Bool) → List A → List A
  where_ p [] = []
  where_ p (x ∷ xs) = let rest = where_ p xs in if p x then x ∷ rest else rest

  -- The first row that a test accepts.
  abbrev pub find : (A → Bool) → List A → Option A
  find p [] = none
  find p (x ∷ xs) = if p x then some x else find p xs

  abbrev pub any : (A → Bool) → List A → Bool
  any p [] = false
  any p (x ∷ xs) = p x || any p xs

  abbrev pub count : (A → Bool) → List A → ℕ
  count p [] = 0
  count p (x ∷ xs) = (if p x then 1 else 0) + count p xs

  -- Every element has the property.
  abbrev pub All {κ} : (A → Type κ) → List A → Type κ
  All P [] = Unit
  All P (x ∷ xs) = P x × All P xs

  -- Some element has the property.
  abbrev pub Any : (A → Type 0) → List A → Type 0
  Any P [] = ⊥
  Any P (x ∷ xs) = P x ⊎ Any P xs

  pub length-append : (xs ys : List A) → length (xs ++ ys) ≡ length xs + length ys
  length-append [] ys = omega arith
  length-append (x ∷ xs) ys = omega (arith, length-append xs ys)

  pub length-take : (n : ℕ) (xs : List A) → length (take n xs) ≤ n
  length-take zero xs = omega arith
  length-take (suc n) [] = omega arith
  length-take (suc n) (x ∷ xs) = omega (arith, length-take n xs)

  pub count-append : (p : A → Bool) (xs ys : List A) → count p (xs ++ ys) ≡ count p xs + count p ys
  count-append p [] ys = omega arith
  count-append p (x ∷ xs) ys = omega (arith, count-append p xs ys)

  pub count-le-length : (p : A → Bool) (xs : List A) → count p xs ≤ length xs
  count-le-length p [] = omega arith
  count-le-length p (x ∷ xs) = ground (arith, count-le-length p xs)

  pub any-append : (p : A → Bool) (xs ys : List A) → any p (xs ++ ys) ≡ (any p xs || any p ys)
  any-append p [] ys = refl
  any-append p (x ∷ xs) ys = ground (arith, any-append p xs ys)

  pub Any-map : {P Q : A → Type 0} (xs : List A) → ((x : A) → P x → Q x) → Any P xs → Any Q xs
  Any-map [] f a = absurd a
  Any-map (x ∷ xs) f (inl p) = inl (f x p)
  Any-map (x ∷ xs) f (inr a) = inr (Any-map xs f a)

  pub where_-not : (p : A → Bool) (xs : List A) → where_ p (where_ (λ x. not (p x)) xs) ≡ []
  where_-not p [] = refl
  where_-not p (x ∷ xs) = ground (arith, where_-not p xs)

  -- A clause that keeps all rows of a query leaves its answer.
  pub where_-where_ :
      (p q : A → Bool) (xs : List A)
      → ((x : A) → p x ≡ true → q x ≡ true)
      → where_ p (where_ q xs) ≡ where_ p xs
  where_-where_ p q [] h = refl
  where_-where_ p q (x ∷ xs) h = ground (arith, where_-where_ p q xs h, h x)

  pub length-where_-not :
      (p : A → Bool) (xs : List A)
      → length (where_ p xs) + length (where_ (λ x. not (p x)) xs) ≡ length xs
  length-where_-not p [] = omega arith
  length-where_-not p (x ∷ xs) = ground (arith, length-where_-not p xs)

  -- The rows that a clause keeps pass it.
  pub where_-All : (p : A → Bool) (xs : List A) → All (λ x. p x ≡ true) (where_ p xs)
  where_-All p [] = tt
  where_-All p (x ∷ xs) = elim (Bool-cases (p x)) [
    | inl h ↦ rw h (h, where_-All p xs)
    | inr h ↦ rw h (where_-All p xs)
  ]
