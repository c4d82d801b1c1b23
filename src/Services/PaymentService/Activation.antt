-- ===== src/Services/PaymentService/Activation.antt =====
-- `_activate_subscription` of app/services/payment_service.py: the transaction behind the Stripe
-- webhook and the /activate command.
use telegram_subscription_ma.Base.{
  ℕ, ◌+◌, ◌≡◌, ◌≢◌, refl, sym, ap, ◌∙◌, subst, true, false, Bool-cases, inl, inr, none, some, ◌∷◌,
  arith, find, any_row, ◌⊎◌,
}
use telegram_subscription_ma.Base.Int.{ℤ}
use telegram_subscription_ma.Base.Text.{Text}
use telegram_subscription_ma.Base.Rows.{
  Below, put, has_key, find-put_self, find-put_ne, put-Below, put-All,
}
use telegram_subscription_ma.Base.Sorted.{In}
use telegram_subscription_ma.Base.Action.{ok, err}
use telegram_subscription_ma.Db.Models.{active, User, Subscription, Payment, Database}
use telegram_subscription_ma.Db.Exceptions.{duplicate_payment}
use telegram_subscription_ma.Db.Users
use telegram_subscription_ma.Db.Users.{fits_integer}
use telegram_subscription_ma.Db.Payments
use telegram_subscription_ma.Db.Payments.{has_ref}
use telegram_subscription_ma.Db.Invariant.{IsValid, is_dated, subscription_key, payment_key}
use telegram_subscription_ma.Db.Laws.{get_or_create_lem, HasUser}
use telegram_subscription_ma.Services.PaymentService.{
  find_or_create_subscription, record_and_activate, activate_subscription,
}
use telegram_subscription_ma.Services.PaymentService.Renewal.{
  renewed, activate_lem, thirty_days_more, compute_renewed_expires_at_lem, renewed-OneLive,
  paid_until, HasTarget, find_or_create_lem,
}

module _ (now : ℕ) (telegram_id : ℤ) (provider provider_ref : Text) (amount : ℕ) (currency : Text)
    (db : Database) where
  abbrev payment_for : ℕ → Payment
  payment_for subscription_id = record {
    id = db.next_payment_id;
    subscription_id = subscription_id;
    provider = provider;
    provider_ref = provider_ref;
    amount = amount;
    currency = currency;
    created_at = now;
  }

  -- What a committed activation leaves: `s` is the row that it returned.
  pub record Activated (s : Subscription) (db' : Database) : Type 0 where
    pub valid : IsValid db'
    pub payer : User
    pub registered : In payer db'.users
    pub identified : payer.telegram_id ≡ telegram_id
    pub owner : s.user_id ≡ payer.id
    pub stored : find (has_key subscription_key s.id) db'.subscriptions ≡ some s
    pub is_active : s.status ≡ active
    pub paid : s.expires_at ≡ some (thirty_days_more now (paid_until payer.id db))
    pub reminders_reset : s.last_warning_days_left ≡ none
    pub recorded : db'.payments ≡ payment_for s.id ∷ db.payments
    pub others :
        (k : ℕ)
        → k ≢ s.id
        → find (has_key subscription_key k) db'.subscriptions
          ≡ find (has_key subscription_key k) db.subscriptions

  -- The body of the transaction, from the user and the row that its first steps find.
  module _ (u : User) (db1 : Database) (s : Subscription) (db2 : Database)
      (user_step : Users.get_or_create now telegram_id db ≡ (ok u, db1))
      (target_step : find_or_create_subscription now u.id db1 ≡ (ok s, db2))
      (hu : HasUser telegram_id db u db1) (ht : HasTarget u.id db1 s db2) where
    payments_unchanged : db2.payments ≡ db.payments
    payments_unchanged = ht.same_payments ∙ hu.same_payments

    refused :
        any_row (has_ref provider provider_ref) db.payments ≡ true
        → record_and_activate now telegram_id provider provider_ref amount currency db
          ≡ (err (duplicate_payment provider provider_ref), db2)
    unfolding record_and_activate Payments.create
    refused dup =
        let dup2 : any_row (has_ref provider provider_ref) db2.payments ≡ true =
          rw payments_unchanged dup in
        ground (arith, user_step, target_step)

    -- The database with the payment, and with the renewed row.
    abbrev recorded_db : Database
    recorded_db = record db2 {
      payments = payment_for s.id ∷ db2.payments;
      next_payment_id = db2.next_payment_id + 1;
    }

    abbrev committed_db : Database
    committed_db = record recorded_db {
      subscriptions = put subscription_key (renewed now s) db2.subscriptions;
    }

    committed :
        any_row (has_ref provider provider_ref) db.payments ≡ false
        → record_and_activate now telegram_id provider provider_ref amount currency db
          ≡ (ok (some (renewed now s)), committed_db)
    unfolding record_and_activate Payments.create
    committed fresh =
        let fresh2 : any_row (has_ref provider provider_ref) db2.payments ≡ false =
          rw payments_unchanged fresh in
        ground (
          arith,
          user_step,
          target_step,
          hu.same_payment_id,
          ht.same_payment_id,
          activate_lem now s recorded_db ht.stored,
        )

    committed_db-IsValid :
        any_row (has_ref provider provider_ref) db.payments ≡ false → IsValid committed_db
    committed_db-IsValid fresh = record {
      users_keyed = ht.valid.users_keyed;
      subscriptions_keyed =
          put-Below subscription_key (renewed now s) db2.next_subscription_id db2.subscriptions
            ht.valid.subscriptions_keyed;
      payments_keyed = (
        omega (arith, hu.same_payment_id, ht.same_payment_id),
        subst (λ n. Below payment_key n db2.payments) (ht.same_payment_id ∙ hu.same_payment_id)
            ht.valid.payments_keyed,
      );
      telegram_unique = ht.valid.telegram_unique;
      refs_unique = (rw payments_unchanged fresh, ht.valid.refs_unique);
      one_live =
          renewed-OneLive now db2.next_subscription_id s db2 ht.valid.subscriptions_keyed
            ht.valid.one_live ht.stored ht.candidate;
      dated =
          put-All subscription_key (λ s. is_dated s ≡ true) (renewed now s) db2.subscriptions refl
            ht.valid.dated;
    }

    committed_db-Activated :
        any_row (has_ref provider provider_ref) db.payments ≡ false
        → Activated (renewed now s) committed_db
    committed_db-Activated fresh = record {
      valid = committed_db-IsValid fresh;
      payer = u;
      registered = subst (In u) (sym ht.same_users) hu.listed;
      identified = hu.identified;
      owner = ht.owner;
      stored = find-put_self subscription_key (renewed now s) s db2.subscriptions ht.stored;
      is_active = refl;
      paid =
          ap some (compute_renewed_expires_at_lem now s.expires_at)
          ∙ ap (λ e. some (thirty_days_more now e)) (rw hu.same_subscriptions at ht.same_expiry);
      reminders_reset = refl;
      recorded = ap (λ ps. payment_for s.id ∷ ps) payments_unchanged;
      others = λ k ne.
          find-put_ne subscription_key (renewed now s) k db2.subscriptions ne
          ∙ ht.others k ne
          ∙ ap (find (has_key subscription_key k)) hu.same_subscriptions;
    }

  -- On every valid database, for an id that the column INTEGER holds, an activation ends in one of two ways, and never with an exception. If
  -- the reference is recorded already, it answers None and changes nothing. If it is not, it commits
  -- at once the payer, the payment and the one row of the payer's that is then active, paid for
  -- thirty days longer (from the end of what is paid for, or from now where that is past) and with its reminders reset; no other subscription changes.
  pub activate_subscription_total :
      IsValid db
      → fits_integer telegram_id ≡ true
      → ((any_row (has_ref provider provider_ref) db.payments ≡ true)
          × (activate_subscription now telegram_id provider provider_ref amount currency db
              ≡ (ok none, db)))
        ⊎ ((any_row (has_ref provider provider_ref) db.payments ≡ false)
            × ((s : Subscription) × (db' : Database) × (activate_subscription now telegram_id
                    provider provider_ref amount currency db
                  ≡ (ok (some s), db'))
                × Activated s db'))
  unfolding activate_subscription
  activate_subscription_total v fits =
      let (u, db1, e1, hu) = get_or_create_lem now telegram_id db v fits in
      let (s, db2, e2, ht) = find_or_create_lem now u.id db1 hu.valid in
      elim (Bool-cases (any_row (has_ref provider provider_ref) db.payments)) [
        | inl dup ↦ inl (dup, ground (arith, refused u db1 s db2 e1 e2 hu ht dup))
        | inr fresh ↦ inr (
          fresh,
          (
            renewed now s,
            committed_db u db1 s db2 e1 e2 hu ht,
            ground (arith, committed u db1 s db2 e1 e2 hu ht fresh),
            committed_db-Activated u db1 s db2 e1 e2 hu ht fresh,
          ),
        )
      ]
