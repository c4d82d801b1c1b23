-- ===== src/Services/PaymentService/Idempotence.antt =====
-- When `_activate_subscription` of app/services/payment_service.py activates nothing: a reference that is
-- recorded, and an id that the column of `users.telegram_id` cannot hold.
use telegram_subscription_ma.Base.{
  ℕ, ◌≡◌, sym, subst, true, false, Bool-cases, inl, inr, none, some, arith, any_row,
}
use telegram_subscription_ma.Base.Int.{ℤ}
use telegram_subscription_ma.Base.Text.{Text, text_eq_refl}
use telegram_subscription_ma.Base.Action.{ok, err}
use telegram_subscription_ma.Db.Models.{Subscription, Database}
use telegram_subscription_ma.Db.Exceptions.{data_error}
use telegram_subscription_ma.Db.Users.{fits_integer}
use telegram_subscription_ma.Db.Payments.{has_ref}
use telegram_subscription_ma.Db.Invariant.{IsValid}
use telegram_subscription_ma.Db.Laws.{get_or_create_unfit}
use telegram_subscription_ma.Services.PaymentService.{record_and_activate, activate_subscription}
use telegram_subscription_ma.Services.PaymentService.Activation.{
  Activated, activate_subscription_total,
}

-- For a reference that is recorded.
pub recorded_again :
    (now : ℕ) (telegram_id : ℤ) (provider provider_ref : Text) (amount : ℕ) (currency : Text)
    (db : Database)
    → IsValid db
    → fits_integer telegram_id ≡ true
    → any_row (has_ref provider provider_ref) db.payments ≡ true
    → activate_subscription now telegram_id provider provider_ref amount currency db ≡ (ok none, db)
recorded_again now t provider provider_ref a c db v fits dup =
    elim (activate_subscription_total now t provider provider_ref a c db v fits) [
      | inl (_, e) ↦ e
      | inr (fresh, _) ↦ absurd (cc (dup, fresh))
    ]

-- For one that is not.
pub fresh_activation :
    (now : ℕ) (telegram_id : ℤ) (provider provider_ref : Text) (amount : ℕ) (currency : Text)
    (db : Database)
    → IsValid db
    → fits_integer telegram_id ≡ true
    → any_row (has_ref provider provider_ref) db.payments ≡ false
    → (s : Subscription) × (db' : Database) × (activate_subscription now telegram_id provider
          provider_ref amount currency db
        ≡ (ok (some s), db'))
      × Activated now telegram_id provider provider_ref amount currency db s db'
fresh_activation now t provider provider_ref a c db v fits fresh =
    elim (activate_subscription_total now t provider provider_ref a c db v fits) [
      | inl (dup, _) ↦ absurd (cc (dup, fresh))
      | inr (_, done) ↦ done
    ]

-- For an id that the column cannot hold, on any database.
pub activate_subscription_unfit :
    (now : ℕ) (telegram_id : ℤ) (provider provider_ref : Text) (amount : ℕ) (currency : Text)
    (db : Database)
    → fits_integer telegram_id ≡ false
    → activate_subscription now telegram_id provider provider_ref amount currency db
      ≡ (err data_error, db)
unfolding activate_subscription record_and_activate
activate_subscription_unfit now t provider provider_ref a c db unfit =
    ground (arith, get_or_create_unfit now t db unfit)

-- A recorded reference is settled for good: whoever delivers it again, at whatever later moment, for
-- whatever payer whose id the column holds and whatever amount, is answered None, and the database
-- does not change.
pub activate_subscription_twice :
    (now later : ℕ) (telegram_id telegram_id' : ℤ) (provider provider_ref : Text)
    (amount amount' : ℕ) (currency currency' : Text) (db : Database) (s : Subscription)
    (db' : Database)
    → IsValid db
    → activate_subscription now telegram_id provider provider_ref amount currency db
      ≡ (ok (some s), db')
    → fits_integer telegram_id' ≡ true
    → activate_subscription later telegram_id' provider provider_ref amount' currency' db'
      ≡ (ok none, db')
activate_subscription_twice now later t t' provider provider_ref a a' c c' db s db' v done fits' =
    elim (Bool-cases (fits_integer t)) [
      | inl fits ↦ elim (activate_subscription_total now t provider provider_ref a c db v fits) [
        | inl (dup, e) ↦ absurd (cc (done, e))
        | inr (fresh, (s0, db0, e, act)) ↦
            let settled = recorded_again later t' provider provider_ref a' c' db0 act.valid fits' (
              rw act.recorded (ground (arith, text_eq_refl provider, text_eq_refl provider_ref))) in
            let same : db' ≡ db0 = cc (done, e) in
            subst (λ d. activate_subscription later t' provider provider_ref a' c' d ≡ (ok none, d))
              (sym same) settled
      ]
      | inr unfit ↦
          absurd (cc (done, activate_subscription_unfit now t provider provider_ref a c db unfit))
    ]
