-- ===== src/Db/Latest.antt =====
-- Which row `get_active_or_expiring_for_user` of app/db/repositories.py picks.
use telegram_subscription_ma.Base.{
  ℕ, ◌≤◌, ◌≡◌, ◌≢◌, subst, Bool, true, Option-cases, ◌⊎◌, inl, inr, some, List, [], ◌∷◌, arith,
  where_rows, first, All, order_by,
}
use telegram_subscription_ma.Base.Rows.{put}
use telegram_subscription_ma.Base.Sorted.{
  In, All-In, In-where_rows, first-In, In-order_by, first-order_by, first-order_by-none,
}
use telegram_subscription_ma.Base.Action.{ok}
use telegram_subscription_ma.Db.Models.{Subscription, Database}
use telegram_subscription_ma.Db.Subscriptions.{
  is_live, later_expiry, live_rows, get_active_or_expiring_for_user,
}
use telegram_subscription_ma.Db.Invariant.{is_dated}

pub where_rows-In :
    {A : Type 0} (q : A → Bool) (x : A) (xs : List A)
    → In x xs
    → q x ≡ true
    → In x (where_rows q xs)
where_rows-In q x [] m e = absurd m
where_rows-In q x (y ∷ ys) (inl same) e = ground arith
where_rows-In q x (y ∷ ys) (inr m) e = ground (arith, where_rows-In q x ys m e)

pub put-In :
    {A : Type 0} (key : A → ℕ) (x new : A) (xs : List A)
    → In x xs
    → key x ≢ key new
    → In x (put key new xs)
put-In key x new [] m ne = absurd m
put-In key x new (y ∷ ys) (inl same) ne = ground arith
put-In key x new (y ∷ ys) (inr m) ne = inr (put-In key x new ys m ne)

later_expiry-total : (s t : Subscription) → (later_expiry s t ≡ true) ⊎ (later_expiry t s ≡ true)
later_expiry-total s t = ground arith

later_expiry-transitive :
    (s t u : Subscription)
    → later_expiry s t ≡ true
    → later_expiry t u ≡ true
    → later_expiry s u ≡ true
later_expiry-transitive s t u a b = ground arith

pub latest_live :
    (db : Database) (user_id : ℕ) (r : Subscription)
    → In r db.subscriptions
    → r.user_id ≡ user_id
    → is_live r ≡ true
    → (x : Subscription) × (first (order_by later_expiry (live_rows user_id db)) ≡ some x)
      × In x db.subscriptions
      × (x.user_id ≡ user_id)
      × (is_live x ≡ true)
      × (later_expiry x r ≡ true)
latest_live db user_id r member owner live =
    let rows = live_rows user_id db in
    let among : In r rows = where_rows-In _ r db.subscriptions member (ground arith) in
    elim (Option-cases (first (order_by later_expiry rows))) [
      | inl absent ↦ absurd (subst (In r) (first-order_by-none later_expiry rows absent) among)
      | inr (x, e) ↦
          let (m, q) =
            In-where_rows _ x db.subscriptions (In-order_by later_expiry x rows (first-In x _ e)) in
          (
            x,
            e,
            m,
            ground arith,
            ground arith,
            All-In (λ z. later_expiry x z ≡ true) r rows
                (first-order_by later_expiry later_expiry-total later_expiry-transitive x rows e)
                among,
          )
    ]

later_expiry-◌≤◌ :
    (x r : Subscription) (a b : ℕ)
    → x.expires_at ≡ some a
    → r.expires_at ≡ some b
    → later_expiry x r ≡ true
    → b ≤ a
later_expiry-◌≤◌ x r a b ea eb e = ground arith

-- The row that is picked, in a table whose live rows all have an expiry.
module _ (db : Database) (dated : All (λ s. is_dated s ≡ true) db.subscriptions) where
  live_expiry :
      (s : Subscription)
      → In s db.subscriptions
      → is_live s ≡ true
      → (e : ℕ) × (s.expires_at ≡ some e)
  live_expiry s m live =
      let d : is_dated s ≡ true = All-In (λ z. is_dated z ≡ true) s db.subscriptions dated m in
      elim (Option-cases s.expires_at) [
        | inl absent ↦ absurd (ground arith)
        | inr present ↦ present
      ]

  -- With a live row `r` of the user in the table, and an expiry in exactly the rows that are not pending, the query answers a live row of the user that
  -- expires no sooner than `r`. The database does not change.
  pub get_active_or_expiring_for_user_latest :
      (user_id : ℕ) (r : Subscription) (b : ℕ)
      → In r db.subscriptions
      → r.user_id ≡ user_id
      → is_live r ≡ true
      → r.expires_at ≡ some b
      → (x : Subscription) × (a : ℕ) × (get_active_or_expiring_for_user user_id db
          ≡ (ok (some x), db))
        × (x.user_id ≡ user_id)
        × (is_live x ≡ true)
        × (x.expires_at ≡ some a)
        × (b ≤ a)
  unfolding get_active_or_expiring_for_user
  get_active_or_expiring_for_user_latest user_id r b m owner live expiry =
      let (x, e, mx, ux, lx, le) = latest_live db user_id r m owner live in
      let (a, ea) = live_expiry x mx lx in
      (x, a, ground (arith, e), ux, lx, ea, later_expiry-◌≤◌ x r a b ea expiry le)
