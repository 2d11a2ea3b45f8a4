-- ===== src/Store/Unique.antt =====
-- Constraints on a table: at most one row passes a test, and new rows get new ids.
use whatsapp_bot.Prelude.{
  ℕ, ◌+◌, ◌≤◌, ◌<◌, ◌≡◌, refl, Bool, true, false, List, [], ◌∷◌, ◌++◌, arith, ◌==◌, nat_eq, any,
  where_, length, length-append, All, ltb, ap, sym, ◌∙◌, Bool-cases, inl, inr,
}
use whatsapp_bot.Store.Rows.{put, delete, where_-append}

-- At most one row passes.
pub record AtMostOne {ℓ} {A : Type ℓ} (p : A → Bool) (rows : List A) : Type 0 where
  pub bound : length (where_ p rows) ≤ 1

module _ {ℓ} {A : Type ℓ} where
  pub AtMostOne-append :
      (p : A → Bool) (x : A) (rows : List A)
      → AtMostOne p rows
      → (p x ≡ true → where_ p rows ≡ [])
      → AtMostOne p (rows ++ x ∷ [])
  AtMostOne-append p x rows h new = record {
    bound = rw where_-append (elim (Bool-cases (p x)) [
      | inl hit ↦ rw (new hit, hit) (omega arith)
      | inr miss ↦ rw miss (omega (arith, h.bound, length-append (where_ p rows) []))
    ]);
  }

  pub AtMostOne-delete :
      (p : A → Bool) (id : A → ℕ) (e : A) (rows : List A)
      → AtMostOne p rows
      → AtMostOne p (delete id e rows)
  AtMostOne-delete p id e rows h = record { bound = omega (arith, h.bound, shorter rows) }
    where
      shorter : (xs : List A) → length (where_ p (delete id e xs)) ≤ length (where_ p xs)
      shorter [] = omega arith
      shorter (x ∷ xs) = ground (arith, shorter xs)

  -- No row has an id that all ids are below.
  pub where_-fresh :
      (id : A → ℕ) (n : ℕ) (rows : List A)
      → All (λ r. id r < n) rows
      → where_ (λ r. id r == n) rows ≡ []
  where_-fresh id n [] h = refl
  where_-fresh id n (x ∷ xs) h = ground (arith, where_-fresh id n xs h.1)

  pub All-append_one :
      (id : A → ℕ) (n : ℕ) (x : A) (rows : List A)
      → All (λ r. id r < n) rows
      → id x < n + 1
      → All (λ r. id r < n + 1) (rows ++ x ∷ [])
  All-append_one id n x [] h l = (l, tt)
  All-append_one id n x (y ∷ ys) h l = (omega (arith, h.0), All-append_one id n x ys h.1 l)

  pub All-delete :
      (id : A → ℕ) (n : ℕ) (e : A) (rows : List A)
      → All (λ r. id r < n) rows
      → All (λ r. id r < n) (delete id e rows)
  All-delete id n e [] h = tt
  All-delete id n e (x ∷ xs) h = elim (Bool-cases (id x == id e)) [
    | inl same ↦ rw same (All-delete id n e xs h.1)
    | inr other ↦ rw other (h.0, All-delete id n e xs h.1)
  ]

  delete_absent :
      (id : A → ℕ) (e : A) (rows : List A)
      → where_ (λ r. id r == id e) rows ≡ []
      → delete id e rows ≡ rows
  delete_absent id e [] h = refl
  delete_absent id e (x ∷ xs) h = ground (arith, delete_absent id e xs)

  nil_of_length : (xs : List A) → length xs ≤ 0 → xs ≡ []
  nil_of_length [] h = refl
  nil_of_length (x ∷ xs) h = absurd (omega arith)

  present :
      (id : A → ℕ) (q : A → Bool) (e : A) (rows : List A)
      → where_ q rows ≡ e ∷ []
      → 0 < length (where_ (λ r. id r == id e) rows)
  present id q e [] h = cc
  present id q e (x ∷ xs) h = ground (arith, present id q e xs)

  -- Where ids are unique, deleting the one row that passes a test leaves the rows of another test.
  pub any-delete_apart :
      (id : A → ℕ) (p q : A → Bool) (e : A) (rows : List A)
      → where_ q rows ≡ e ∷ []
      → length (where_ (λ r. id r == id e) rows) ≤ 1
      → p e ≡ false
      → any p (delete id e rows) ≡ any p rows
  any-delete_apart id p q e [] found unique apart = refl
  any-delete_apart id p q e (x ∷ xs) found unique apart = elim (Bool-cases (q x)) [
    | inl hit ↦ ground (arith, delete_absent id e xs, nil_of_length (where_ (λ r. id r == id e) xs))
    | inr miss ↦ ground (arith, present id q e xs, any-delete_apart id p q e xs)
  ]

  -- A row that replaces the one row of its id passes the tests that the old row passed.
  pub where_-put_absent :
      (id : A → ℕ) (row : A) (rows : List A)
      → where_ (λ r. id r == id row) rows ≡ []
      → put id row rows ≡ rows
  where_-put_absent id row [] h = refl
  where_-put_absent id row (x ∷ xs) h = ground (arith, where_-put_absent id row xs)

  pub length-where_-put :
      (id : A → ℕ) (p q : A → Bool) (e row : A) (rows : List A)
      → where_ q rows ≡ e ∷ []
      → length (where_ (λ r. id r == id row) rows) ≤ 1
      → id row ≡ id e
      → p row ≡ p e
      → length (where_ p (put id row rows)) ≡ length (where_ p rows)
  length-where_-put id p q e row [] found unique same_id same = refl
  length-where_-put id p q e row (x ∷ xs) found unique same_id same = elim (Bool-cases (q x)) [
    | inl hit ↦
        ground (arith, where_-put_absent id row xs, nil_of_length (where_ (λ r. id r == id row) xs))
    | inr miss ↦ ground (arith, present id q e xs, length-where_-put id p q e row xs)
  ]

  -- The row that replaces the one row of a query is the answer of the query.
  pub where_-put :
      (id : A → ℕ) (q : A → Bool) (e row : A) (rows : List A)
      → where_ q rows ≡ e ∷ []
      → length (where_ (λ r. id r == id row) rows) ≤ 1
      → id row ≡ id e
      → q row ≡ true
      → where_ q (put id row rows) ≡ row ∷ []
  where_-put id q e row [] found unique same_id hits = cc
  where_-put id q e row (x ∷ xs) found unique same_id hits = elim (Bool-cases (q x)) [
    | inl hit ↦
        ground (arith, where_-put_absent id row xs, nil_of_length (where_ (λ r. id r == id row) xs))
    | inr miss ↦ ground (arith, present id q e xs, where_-put id q e row xs)
  ]

  any-length : (p : A → Bool) (rows : List A) → any p rows ≡ ltb 0 (length (where_ p rows))
  any-length p [] = refl
  any-length p (x ∷ xs) = ground (arith, any-length p xs)

  pub any-put :
      (id : A → ℕ) (p q : A → Bool) (e row : A) (rows : List A)
      → where_ q rows ≡ e ∷ []
      → length (where_ (λ r. id r == id row) rows) ≤ 1
      → id row ≡ id e
      → p row ≡ p e
      → any p (put id row rows) ≡ any p rows
  any-put id p q e row rows found unique same_id same =
      any-length p (put id row rows)
      ∙ ap (λ n. ltb 0 n) (length-where_-put id p q e row rows found unique same_id same)
      ∙ sym (any-length p rows)

  pub All-put :
      (id : A → ℕ) (n : ℕ) (row : A) (rows : List A)
      → All (λ r. id r < n) rows
      → All (λ r. id r < n) (put id row rows)
  All-put id n row [] h = tt
  All-put id n row (x ∷ xs) h = elim (Bool-cases (id x == id row)) [
    | inl same ↦ rw same (ground (arith, h.0), All-put id n row xs h.1)
    | inr other ↦ rw other (h.0, All-put id n row xs h.1)
  ]
