-- ===== src/Base/Batch.antt =====
-- A selection of a keyed table that is written back row by row, each changed by one function that
-- leaves its key.
use telegram_subscription_ma.Base.{
  ℕ, ◌≡◌, ◌≢◌, ◌≤◌, refl, sym, ap, ◌∙◌, subst, Bool, Bool-cases, inl, inr, List, [], ◌∷◌, map,
  arith, where_rows, All, if◌then◌else◌,
}
use telegram_subscription_ma.Base.Rows.{Below, put, put_absent}
use telegram_subscription_ma.Base.Sorted.{In}

module _ {A : Type 0} where
  pub All-intro : (P : A → Type 0) (xs : List A) → ((x : A) → In x xs → P x) → All P xs
  All-intro P [] h = tt
  All-intro P (x ∷ xs) h = (h x (inl refl), All-intro P xs (λ y m. h y (inr m)))

module _ {A : Type 0} (key : A → ℕ) where
  -- No two rows of a selection have one key.
  abbrev pub Distinct : List A → Type 0
  Distinct [] = Unit {0}
  Distinct (x ∷ xs) = All (λ y. key y ≢ key x) xs × Distinct xs

  pub where_rows-other :
      (q : A → Bool) (n k : ℕ) (xs : List A)
      → Below key n xs
      → n ≤ k
      → All (λ x. key x ≢ k) (where_rows q xs)
  where_rows-other q n k [] below le = tt
  where_rows-other q n k (x ∷ xs) below le =
      let rest = where_rows-other q (key x) k xs below.1 (omega arith) in
      elim (Bool-cases (q x)) [
        | inl hit ↦ rw hit (λ e. omega arith, rest)
        | inr miss ↦ rw miss rest
      ]

  pub where_rows-Distinct :
      (q : A → Bool) (n : ℕ) (xs : List A) → Below key n xs → Distinct (where_rows q xs)
  where_rows-Distinct q n [] below = tt
  where_rows-Distinct q n (x ∷ xs) below =
      let rest = where_rows-Distinct q (key x) xs below.1 in
      elim (Bool-cases (q x)) [
        | inl hit ↦ rw hit (where_rows-other q (key x) (key x) xs below.1 (omega arith), rest)
        | inr miss ↦ rw miss rest
      ]

  module _ (f : A → A) (same : (x : A) → key (f x) ≡ key x) where
    abbrev pub put_each : List A → List A → List A
    put_each [] rows = rows
    put_each (x ∷ xs) rows = put_each xs (put key (f x) rows)

    put_each-skip :
        (h : A) (xs rows : List A)
        → All (λ x. key x ≢ key h) xs
        → put_each xs (h ∷ rows) ≡ h ∷ put_each xs rows
    put_each-skip h [] rows other = refl
    put_each-skip h (x ∷ xs) rows other =
        ap (put_each xs) (ground (arith, same x, other.0))
        ∙ put_each-skip h xs (put key (f x) rows) other.1

    -- What that comes to: the function is applied where the selection's test holds.
    pub put_each-where_rows :
        (q : A → Bool) (n : ℕ) (rows : List A)
        → Below key n rows
        → put_each (where_rows q rows) rows ≡ map (λ x. if q x then f x else x) rows
    put_each-where_rows q n [] below = refl
    put_each-where_rows q n (x ∷ rows) below =
        let other = where_rows-other q (key x) (key x) rows below.1 (omega arith) in
        let rest = put_each-where_rows q (key x) rows below.1 in
        let written : put key (f x) (x ∷ rows) ≡ f x ∷ rows =
          ground
            (arith, same x, put_absent key (f x) (key x) rows below.1 (omega (arith, same x))) in
        elim (Bool-cases (q x)) [
          | inl hit ↦ rw hit (
              ap (put_each (where_rows q rows)) written
              ∙ put_each-skip (f x) (where_rows q rows) rows
                  (subst (λ k. All (λ y. key y ≢ k) (where_rows q rows)) (sym (same x)) other)
              ∙ ap (λ l. f x ∷ l) rest)
          | inr miss ↦
              rw miss (put_each-skip x (where_rows q rows) rows other ∙ ap (λ l. x ∷ l) rest)
        ]
