-- ===== src/Services/PaymentService/Refinement.antt =====
-- The abstract state of the service is, for each user, until when that user has paid. A payment
-- extends one user's entry by thirty days, and touches no other.
use telegram_subscription_ma.Base.{
  ℕ, ◌≡◌, refl, ap, ◌∙◌, true, false, Bool-cases, inl, inr, Option, none, some, [], ◌∷◌, arith,
  find, first, if◌then◌else◌, ◌⊎◌, ◌==◌, ◌&&◌, ==_iff, subst,
}
use mathlib.Core.Path.{fun_ext}
use telegram_subscription_ma.Base.Rows.{
  Below, put, has_key, where-put_out, where-put_one, where-put_new,
}
use telegram_subscription_ma.Db.Models.{Subscription, Database}
use telegram_subscription_ma.Db.Subscriptions.{is_live, live_rows, later_expiry}
use telegram_subscription_ma.Base.Sorted.{order_by_one}
use telegram_subscription_ma.Db.Invariant.{OneLive, subscription_key}
use telegram_subscription_ma.Services.PaymentService.{activate}
use telegram_subscription_ma.Services.PaymentService.Renewal.{
  renewed, activate_lem, thirty_days_more, compute_renewed_expires_at_lem, paid_until,
  latest_expiry,
}

-- Until when each user has paid.
abbrev pub Accounts : Type 0
Accounts = ℕ → Option ℕ

abbrev pub accounts : Database → Accounts
accounts db user_id = paid_until user_id db

-- The specification of a payment by `user_id`.
abbrev pub extend : ℕ → ℕ → Accounts → Accounts
extend now user_id paid u = if user_id == u then some (thirty_days_more now (paid u)) else paid u

latest_expiry_one : (s : Subscription) → latest_expiry (s ∷ []) ≡ s.expires_at
latest_expiry_one s =
    ap (λ rows. elim (first rows) [ none ↦ none | some t ↦ t.expires_at ])
      (order_by_one later_expiry s)

module _ (now n : ℕ) (s : Subscription) (db : Database)
    (keyed : Below subscription_key n db.subscriptions) (one : OneLive db)
    (found : find (has_key subscription_key s.id) db.subscriptions ≡ some s)
    (candidate : (is_live s ≡ true) ⊎ (live_rows s.user_id db ≡ [])) where
  abbrev renewed_db : Database
  renewed_db = record db { subscriptions = put subscription_key (renewed now s) db.subscriptions }

  -- The renewed row is its user's one live row.
  renewed-live_rows : live_rows s.user_id renewed_db ≡ renewed now s ∷ []
  renewed-live_rows =
      let q = λ (t : Subscription). (t.user_id == s.user_id) && is_live t in
      let self : (s.user_id == s.user_id) ≡ true = ground arith in
      elim candidate [
        | inl live ↦
            where-put_one subscription_key q (renewed now s) s n db.subscriptions keyed found
              (ground arith) (ground arith) (one s.user_id)
        | inr idle ↦
            where-put_new subscription_key q (renewed now s) s n db.subscriptions keyed found idle
              (ground arith)
      ]

  others-live_rows : (u : ℕ) → (s.user_id == u) ≡ false → live_rows u renewed_db ≡ live_rows u db
  others-live_rows u other =
      where-put_out subscription_key (λ t. (t.user_id == u) && is_live t) (renewed now s) s n
        db.subscriptions keyed found (ground arith) (ground arith)

  -- Renewing that row is the specified payment, where its expiry is what the user had paid for.
  pub renewed-extends :
      s.expires_at ≡ paid_until s.user_id db
      → accounts renewed_db ≡ extend now s.user_id (accounts db)
  renewed-extends same = fun_ext λ u. elim (Bool-cases (s.user_id == u)) [
    | inl own ↦
        let e : s.user_id ≡ u = (==_iff s.user_id u).0 own in
        let after : live_rows u renewed_db ≡ renewed now s ∷ [] =
          subst (λ w. live_rows w renewed_db ≡ renewed now s ∷ []) e renewed-live_rows in
        let before : s.expires_at ≡ paid_until u db =
          subst (λ w. s.expires_at ≡ paid_until w db) e same in
        ap latest_expiry after
        ∙ latest_expiry_one (renewed now s)
        ∙ ap some (compute_renewed_expires_at_lem now s.expires_at)
        ∙ ap (λ p. some (thirty_days_more now p)) before
        ∙ rw (own, extend) refl
    | inr other ↦ ap latest_expiry (others-live_rows u other) ∙ rw (other, extend) refl
  ]

  -- On a database where nobody has two live subscriptions, activating a stored row that is live, or
  -- whose user has no live one, and whose expiry is what the user had paid for, gives that user
  -- thirty days more: from the end of what was paid for, or from now where that is past or there is
  -- none. No other user's account changes.
  pub activate-extends :
      s.expires_at ≡ paid_until s.user_id db
      → accounts (activate now s db).1 ≡ extend now s.user_id (accounts db)
  activate-extends same =
      ap (λ r. accounts r.1) (activate_lem now s db found) ∙ renewed-extends same
