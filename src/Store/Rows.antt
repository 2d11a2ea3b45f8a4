-- ===== src/Store/Rows.antt =====
-- Queries and updates on a table, a list of rows in the order of their ids.
use whatsapp_bot.Prelude.{
  ℕ, ◌≤◌, ◌<◌, ◌≡◌, refl, Bool, true, false, Option, none, some, List, [], ◌∷◌, ◌++◌, ◌&&◌, arith,
  ◌==◌, nat_eq, any, Bool-cases, where_, length, if◌then◌else◌, ◌⊎◌, inl, inr,
}

module _ {ℓ} {A : Type ℓ} where
  -- An object's attributes reach its row: the row with the object's id.
  abbrev pub put : (A → ℕ) → A → List A → List A
  put id row [] = []
  put id row (x ∷ xs) = (if id x == id row then row else x) ∷ put id row xs

  -- `session.delete`: the row with the object's id goes.
  abbrev pub delete : (A → ℕ) → A → List A → List A
  delete id row [] = []
  delete id row (x ∷ xs) = let rest = delete id row xs in if id x == id row then rest else x ∷ rest

  -- The last row that a test accepts: `ORDER BY id DESC LIMIT 1`.
  abbrev pub find_last : (A → Bool) → List A → Option A
  find_last p [] = none
  find_last p (x ∷ xs) = elim (find_last p xs) [
    | none ↦ if p x then some x else none
    | some y ↦ some y
  ]

  pub any-put :
      (id : A → ℕ) (p : A → Bool) (row : A) (xs : List A)
      → ((x : A) → id x ≡ id row → p x ≡ p row)
      → any p (put id row xs) ≡ any p xs
  any-put id p row [] same = refl
  any-put id p row (x ∷ xs) same = ground (arith, any-put id p row xs same, same x)

  -- Where only one row passes a test, deleting it leaves none.
  pub any-delete :
      (id : A → ℕ) (p : A → Bool) (row : A) (xs : List A)
      → where_ p xs ≡ row ∷ []
      → any p (delete id row xs) ≡ false
  any-delete id p row [] h = refl
  any-delete id p row (x ∷ xs) h = ground (arith, any-delete id p row xs, none_left xs)
    where
      none_left : (ys : List A) → where_ p ys ≡ [] → any p (delete id row ys) ≡ false
      none_left [] e = refl
      none_left (y ∷ ys) e = ground (arith, none_left ys)

  -- Deleting a row that fails a test does not change whether some row passes it.
  pub any-delete_other :
      (id : A → ℕ) (p : A → Bool) (row : A) (xs : List A)
      → ((x : A) → id x ≡ id row → p x ≡ false)
      → any p (delete id row xs) ≡ any p xs
  any-delete_other id p row [] h = refl
  any-delete_other id p row (x ∷ xs) h = ground (arith, any-delete_other id p row xs h, h x)

  pub where_-nil : (p : A → Bool) (xs : List A) → any p xs ≡ false → where_ p xs ≡ []
  where_-nil p [] h = refl
  where_-nil p (x ∷ xs) h = ground (arith, where_-nil p xs)

  pub any_of_where_ :
      (p : A → Bool) (xs : List A) {y : A} {ys : List A} → where_ p xs ≡ y ∷ ys → any p xs ≡ true
  any_of_where_ p [] h = cc
  any_of_where_ p (x ∷ xs) {y = y} {ys = ys} h =
      ground (arith, any_of_where_ p xs {y = y} {ys = ys})

  pub length-where_-pos : (p : A → Bool) (xs : List A) → any p xs ≡ true → 0 < length (where_ p xs)
  length-where_-pos p [] h = cc
  length-where_-pos p (x ∷ xs) h = ground (arith, length-where_-pos p xs)

  -- At most one row, as `scalar_one_or_none` expects.
  pub AtMostOne-cases : (xs : List A) → length xs ≤ 1 → (xs ≡ []) ⊎ ((x : A) × (xs ≡ x ∷ []))
  AtMostOne-cases [] h = inl refl
  AtMostOne-cases (x ∷ []) h = inr (x, refl)
  AtMostOne-cases (x ∷ y ∷ r) h = absurd (omega arith)

  pub where_-append :
      (p : A → Bool) (xs ys : List A) → where_ p (xs ++ ys) ≡ where_ p xs ++ where_ p ys
  where_-append p [] ys = refl
  where_-append p (x ∷ xs) ys = ground (arith, where_-append p xs ys)

  pub any_of_where_-nil : (p : A → Bool) (xs : List A) → where_ p xs ≡ [] → any p xs ≡ false
  any_of_where_-nil p [] h = refl
  any_of_where_-nil p (x ∷ xs) h = ground (arith, any_of_where_-nil p xs)

  pub where_-head :
      (p : A → Bool) (xs : List A) {y : A} {ys : List A} → where_ p xs ≡ y ∷ ys → p y ≡ true
  where_-head p [] h = cc
  where_-head p (x ∷ xs) {y = y} {ys = ys} h = elim (Bool-cases (p x)) [
    | inl hit ↦ ground (arith, hit)
    | inr miss ↦ where_-head p xs {y = y} {ys = ys} (ground (arith, miss))
  ]

  -- Where the row that is written back is the one row of a key, no row of the key passes a test
  -- that it fails.
  pub any-put_only :
      (id : A → ℕ) (q p : A → Bool) (e row : A) (xs : List A)
      → where_ q xs ≡ e ∷ []
      → id row ≡ id e
      → p row ≡ false
      → any (λ x. q x && p x) (put id row xs) ≡ false
  any-put_only id q p e row [] found same_id fails = refl
  any-put_only id q p e row (x ∷ xs) found same_id fails = elim (Bool-cases (q x)) [
    | inl hit ↦ ground (arith, none_left xs, Bool-cases (q row))
    | inr miss ↦ ground (arith, any-put_only id q p e row xs, Bool-cases (q row))
  ]
    where
      none_left : (ys : List A) → where_ q ys ≡ [] → any (λ x. q x && p x) (put id row ys) ≡ false
      none_left [] h = refl
      none_left (y ∷ ys) h = ground (arith, none_left ys, Bool-cases (q row))
