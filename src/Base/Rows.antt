-- ===== src/Base/Rows.antt =====
-- A table whose rows are keyed by a sequence: each new row, in front, has a larger key. What a
-- lookup and a selection give after one row is replaced.
use mathlib.Core.Option.{some-injective}
use telegram_subscription_ma.Base.{
  subst, ℕ, ◌+◌, ◌<◌, ◌≤◌, ◌≡◌, ◌≢◌, refl, ◌==◌, Bool, true, false, Bool-cases, inl, inr, none,
  some, List, [], ◌∷◌, arith, if◌then◌else◌, length, where_rows, find, update_rows, All,
}

module _ {A : Type 0} (key : A → ℕ) where
  -- The keys fall along the table and stay below the sequence's next value.
  abbrev pub Below : ℕ → List A → Type 0
  Below n [] = Unit {0}
  Below n (x ∷ xs) = (key x < n) × Below (key x) xs

  abbrev pub has_key : ℕ → A → Bool
  has_key k x = key x == k

  -- UPDATE … WHERE id = …, to the whole row `x`.
  abbrev pub put : A → List A → List A
  put x = update_rows (has_key (key x)) (λ _. x)

  pub put-Below : (x : A) (n : ℕ) (xs : List A) → Below n xs → Below n (put x xs)
  put-Below x n [] h = tt
  put-Below x n (y ∷ ys) h = ground (arith, put-Below x (key y) ys h.1)

  -- A row that is replaced is found, in its new form, under its key.
  pub find-put_self :
      (x old : A) (xs : List A)
      → find (has_key (key x)) xs ≡ some old
      → find (has_key (key x)) (put x xs) ≡ some x
  find-put_self x old [] h = cc
  find-put_self x old (y ∷ ys) h = ground (arith, find-put_self x old ys)

  -- No other row changes.
  pub find-put_ne :
      (x : A) (k : ℕ) (xs : List A) → k ≢ key x → find (has_key k) (put x xs) ≡ find (has_key k) xs
  find-put_ne x k [] h = refl
  find-put_ne x k (y ∷ ys) h = ground (arith, find-put_ne x k ys h)

  pub find_above : (k n : ℕ) (xs : List A) → Below n xs → n ≤ k → find (has_key k) xs ≡ none
  find_above k n [] b h = refl
  find_above k n (y ∷ ys) b h = ground (arith, find_above k (key y) ys b.1)

  pub put_absent : (x : A) (n : ℕ) (xs : List A) → Below n xs → n ≤ key x → put x xs ≡ xs
  put_absent x n [] b h = refl
  put_absent x n (y ∷ ys) b h = ground (arith, put_absent x (key y) ys b.1)

  -- What a lookup by key gives has that key.
  pub find-key : (k : ℕ) (x : A) (xs : List A) → find (has_key k) xs ≡ some x → key x ≡ k
  find-key k x [] h = cc
  find-key k x (y ∷ ys) h = ground (arith, find-key k x ys)

  pub put-All : (P : A → Type 0) (x : A) (xs : List A) → P x → All P xs → All P (put x xs)
  put-All P x [] p h = tt
  put-All P x (y ∷ ys) p h = elim (Bool-cases (has_key (key x) y)) [
    | inl hit ↦ (rw hit p, put-All P x ys p h.1)
    | inr miss ↦ (rw miss h.0, put-All P x ys p h.1)
  ]

  pub find-All :
      (P : A → Type 0) (k : ℕ) (x : A) (xs : List A) → All P xs → find (has_key k) xs ≡ some x → P x
  find-All P k x [] h e = cc
  find-All P k x (y ∷ ys) h e = elim (Bool-cases (has_key k y)) [
    | inl hit ↦ subst P (some-injective y x (rw hit at e)) h.0
    | inr miss ↦ find-All P k x ys h.1 (rw miss at e)
  ]

  -- A selection by `q`, after the row found under a key is replaced.
  module _ (q : A → Bool) where
    abbrev weight : A → ℕ
    weight x = if q x then 1 else 0

    Below-mono : (m n : ℕ) (xs : List A) → Below m xs → m ≤ n → Below n xs
    Below-mono m n [] b h = tt
    Below-mono m n (y ∷ ys) b h = (omega arith, b.1)

    pub where-Below : (n : ℕ) (xs : List A) → Below n xs → Below n (where_rows q xs)
    where-Below n [] b = tt
    where-Below n (y ∷ ys) b = ground (
      arith,
      where-Below (key y) ys b.1,
      Below-mono (key y) n (where_rows q ys) (where-Below (key y) ys b.1),
    )

    -- The number of selected rows moves by what the one row contributes.
    pub count-put :
        (x old : A) (n : ℕ) (xs : List A)
        → Below n xs
        → find (has_key (key x)) xs ≡ some old
        → length (where_rows q (put x xs)) + weight old ≡ length (where_rows q xs) + weight x
    count-put x old n [] b h = cc
    count-put x old n (y ∷ ys) b h =
        ground (arith, count-put x old (key y) ys b.1, put_absent x (key y) ys b.1)

    -- A row that was not selected and still is not leaves the selection as it is.
    pub where-put_out :
        (x old : A) (n : ℕ) (xs : List A)
        → Below n xs
        → find (has_key (key x)) xs ≡ some old
        → q old ≡ false
        → q x ≡ false
        → where_rows q (put x xs) ≡ where_rows q xs
    where-put_out x old n [] b h o e = refl
    where-put_out x old n (y ∷ ys) b h o e =
        ground (arith, where-put_out x old (key y) ys b.1, put_absent x (key y) ys b.1)

    -- A selected row that stays selected is replaced in the selection.
    pub where-put_in :
        (x old : A) (n : ℕ) (xs : List A)
        → Below n xs
        → find (has_key (key x)) xs ≡ some old
        → q old ≡ true
        → q x ≡ true
        → where_rows q (put x xs) ≡ put x (where_rows q xs)
    where-put_in x old n [] b h o e = refl
    where-put_in x old n (y ∷ ys) b h o e = ground (
      arith,
      where-put_in x old (key y) ys b.1,
      put_absent x (key y) ys b.1,
      put_absent x (key y) (where_rows q ys) (where-Below (key y) ys b.1),
    )

    -- A row that becomes selected, where none was, is the selection.
    pub where-put_new :
        (x old : A) (n : ℕ) (xs : List A)
        → Below n xs
        → find (has_key (key x)) xs ≡ some old
        → where_rows q xs ≡ []
        → q x ≡ true
        → where_rows q (put x xs) ≡ x ∷ []
    where-put_new x old n [] b h none_selected e = cc
    where-put_new x old n (y ∷ ys) b h none_selected e =
        ground (arith, where-put_new x old (key y) ys b.1, put_absent x (key y) ys b.1)

    selected-nonempty :
        (old : A) (k : ℕ) (xs : List A)
        → find (has_key k) xs ≡ some old
        → q old ≡ true
        → 0 < length (where_rows q xs)
    selected-nonempty old k [] h o = cc
    selected-nonempty old k (y ∷ ys) h o = ground (arith, selected-nonempty old k ys)

    length-zero : (xs : List A) → length xs ≤ 0 → xs ≡ []
    length-zero [] h = refl
    length-zero (y ∷ ys) h = absurd (omega arith)

    -- Where one row at most is selected, a selected row that is replaced is the selection.
    pub where-put_one :
        (x old : A) (n : ℕ) (xs : List A)
        → Below n xs
        → find (has_key (key x)) xs ≡ some old
        → q old ≡ true
        → q x ≡ true
        → length (where_rows q xs) ≤ 1
        → where_rows q (put x xs) ≡ x ∷ []
    where-put_one x old n [] b h o e one = cc
    where-put_one x old n (y ∷ ys) b h o e one = ground (
      arith,
      where-put_one x old (key y) ys b.1,
      put_absent x (key y) ys b.1,
      selected-nonempty old (key x) ys,
      length-zero (where_rows q ys),
    )
