-- ===== src/Base/Sorted.antt =====
-- Membership by recursion, and what a selection in an order gives: its first row is a member, and
-- no other row may stand in front of it.
use telegram_subscription_ma.Base.{
  ℕ, ◌≡◌, ◌≢◌, ◌<◌, refl, subst, Bool, true, Bool-cases, ◌⊎◌, inl, inr, none, some, List, [], ◌∷◌,
  arith, where_rows, first, find, All, insert_by, order_by,
}
use mathlib.Core.Option.{some-injective}
use telegram_subscription_ma.Base.Rows.{Below, has_key}

module _ {A : Type 0} where
  abbrev pub In : A → List A → Type 0
  In x [] = ⊥
  In x (y ∷ ys) = (x ≡ y) ⊎ In x ys

  pub All-In : (P : A → Type 0) (x : A) (xs : List A) → All P xs → In x xs → P x
  All-In P x [] h m = absurd m
  All-In P x (y ∷ ys) h (inl e) = rw e h.0
  All-In P x (y ∷ ys) h (inr m) = All-In P x ys h.1 m

  pub In-where_rows :
      (q : A → Bool) (x : A) (xs : List A) → In x (where_rows q xs) → In x xs × (q x ≡ true)
  In-where_rows q x [] m = absurd m
  In-where_rows q x (y ∷ ys) m = ground (arith, In-where_rows q x ys)

  pub first-In : (x : A) (xs : List A) → first xs ≡ some x → In x xs
  first-In x [] e = cc
  first-In x (y ∷ ys) e = inl (ground arith)

module _ {A : Type 0} (key : A → ℕ) where
  Below-In : (n : ℕ) (x : A) (xs : List A) → Below key n xs → In x xs → key x < n
  Below-In n x [] b m = absurd m
  Below-In n x (y ∷ ys) b (inl e) = rw e b.0
  Below-In n x (y ∷ ys) b (inr m) = omega (arith, Below-In (key y) x ys b.1 m, b.0)

  -- A member of a keyed table is what its key finds.
  pub find-In :
      (n : ℕ) (x : A) (xs : List A)
      → Below key n xs
      → In x xs
      → find (has_key key (key x)) xs ≡ some x
  find-In n x [] b m = absurd m
  find-In n x (y ∷ ys) b (inl e) = rw e (ground arith)
  find-In n x (y ∷ ys) b (inr m) =
      ground (arith, Below-In (key y) x ys b.1 m, find-In (key y) x ys b.1 m)

module _ {A : Type 0} (before : A → A → Bool) where
  In-insert_by : (x y : A) (ys : List A) → In x (insert_by before y ys) → (x ≡ y) ⊎ In x ys
  unfolding insert_by
  In-insert_by x y [] m = m
  In-insert_by x y (z ∷ zs) m = ground (arith, In-insert_by x y zs)

  pub In-order_by : (x : A) (xs : List A) → In x (order_by before xs) → In x xs
  unfolding order_by
  In-order_by x [] m = m
  In-order_by x (y ∷ ys) m = elim (In-insert_by x y (order_by before ys) m) [
    | inl e ↦ inl e
    | inr m' ↦ inr (In-order_by x ys m')
  ]

  insert_by-All :
      (P : A → Type 0) (x : A) (xs : List A) → All P (insert_by before x xs) → P x × All P xs
  unfolding insert_by
  insert_by-All P x [] h = h
  insert_by-All P x (y ∷ ys) h = elim (Bool-cases (before x y)) [
    | inl e ↦ let h' = rw e at h in (h'.0, h'.1)
    | inr e ↦ let h' = rw e at h in let (px, rest) = insert_by-All P x ys h'.1 in (px, (h'.0, rest))
  ]

  All-insert_by :
      (P : A → Type 0) (x : A) (xs : List A) → P x → All P xs → All P (insert_by before x xs)
  unfolding insert_by
  All-insert_by P x [] p h = (p, tt)
  All-insert_by P x (y ∷ ys) p h = elim (Bool-cases (before x y)) [
    | inl e ↦ rw e (p, h)
    | inr e ↦ rw e (h.0, All-insert_by P x ys p h.1)
  ]

  order_by-All : (P : A → Type 0) (xs : List A) → All P (order_by before xs) → All P xs
  unfolding order_by
  order_by-All P [] h = tt
  order_by-All P (x ∷ xs) h =
      let (p, rest) = insert_by-All P x (order_by before xs) h in (p, order_by-All P xs rest)

  -- Each row may stand in front of all behind it.
  abbrev IsOrdered : List A → Type 0
  IsOrdered [] = Unit {0}
  IsOrdered (x ∷ xs) = All (λ y. before x y ≡ true) xs × IsOrdered xs

  module _ (total : (x y : A) → (before x y ≡ true) ⊎ (before y x ≡ true))
      (transitive : (x y z : A) → before x y ≡ true → before y z ≡ true → before x z ≡ true) where
    All-before :
        (x y : A) (xs : List A)
        → before x y ≡ true
        → All (λ z. before y z ≡ true) xs
        → All (λ z. before x z ≡ true) xs
    All-before x y [] e h = tt
    All-before x y (z ∷ zs) e h = (transitive x y z e h.0, All-before x y zs e h.1)

    insert_by-IsOrdered : (x : A) (xs : List A) → IsOrdered xs → IsOrdered (insert_by before x xs)
    unfolding insert_by
    insert_by-IsOrdered x [] h = (tt, tt)
    insert_by-IsOrdered x (y ∷ ys) h = elim (Bool-cases (before x y)) [
      | inl e ↦ rw e ((e, All-before x y ys e h.0), h)
      | inr e ↦ rw e (
        All-insert_by (λ z. before y z ≡ true) x ys (ground (arith, total x y)) h.0,
        insert_by-IsOrdered x ys h.1,
      )
    ]

    order_by-IsOrdered : (xs : List A) → IsOrdered (order_by before xs)
    unfolding order_by
    order_by-IsOrdered [] = tt
    order_by-IsOrdered (x ∷ xs) = insert_by-IsOrdered x (order_by before xs) (order_by-IsOrdered xs)

    first-All :
        (x : A) (xs : List A) → IsOrdered xs → first xs ≡ some x → All (λ z. before x z ≡ true) xs
    first-All x [] h e = tt
    first-All x (y ∷ ys) h e =
        subst (λ w. All (λ z. before w z ≡ true) (y ∷ ys)) (some-injective y x e)
          (ground (arith, total y y), h.0)

    -- The first row in the order may stand in front of every row of the selection.
    pub first-order_by :
        (x : A) (xs : List A)
        → first (order_by before xs) ≡ some x
        → All (λ z. before x z ≡ true) xs
    first-order_by x xs e =
        order_by-All (λ z. before x z ≡ true) xs
          (first-All x (order_by before xs) (order_by-IsOrdered xs) e)

  insert_by-nonempty : (x : A) (xs : List A) → first (insert_by before x xs) ≢ none
  unfolding insert_by
  insert_by-nonempty x [] = ground arith
  insert_by-nonempty x (y ∷ ys) = ground arith

  -- An order has a first row exactly if the selection is not empty.
  pub first-order_by-none : (xs : List A) → first (order_by before xs) ≡ none → xs ≡ []
  unfolding order_by
  first-order_by-none [] e = refl
  first-order_by-none (x ∷ xs) e = absurd (insert_by-nonempty x (order_by before xs) e)

  pub order_by_one : (x : A) → order_by before (x ∷ []) ≡ x ∷ []
  unfolding order_by
  order_by_one x = refl
