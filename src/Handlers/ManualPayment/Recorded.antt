-- ===== src/Handlers/ManualPayment/Recorded.antt =====
-- From the screenshot that `receive_screenshot` of app/handlers.py records to its confirmation.
use telegram_subscription_ma.Base.{
  true, ℕ, ◌+◌, ◌*◌, ◌≡◌, ◌≢◌, refl, sym, ap, subst, false, inl, inr, none, some, [], ◌∷◌, arith,
  any_row, find, ◌∙◌,
}
use mathlib.Core.Option.{some-injective}
use telegram_subscription_ma.Base.Int.{ℤ}
use telegram_subscription_ma.Base.Text.{codes}
use telegram_subscription_ma.Base.Rows.{has_key}
use telegram_subscription_ma.Base.Sorted.{In}
use telegram_subscription_ma.Base.Action.{ok}
use telegram_subscription_ma.Db.Models.{pending, User, Subscription, Payment, Database}
use telegram_subscription_ma.Db.Users
use telegram_subscription_ma.Db.Users.{fits_integer}
use telegram_subscription_ma.Db.Subscriptions
use telegram_subscription_ma.Db.Subscriptions.{live_rows}
use telegram_subscription_ma.Db.Payments
use telegram_subscription_ma.Db.Payments.{has_ref}
use telegram_subscription_ma.Db.Invariant.{IsValid, OneLive, subscription_key}
use telegram_subscription_ma.Db.Laws.{get_or_create_lem}
use telegram_subscription_ma.Domain.Pricing.{get_current_price}
use telegram_subscription_ma.Services.PaymentService.{confirm_manual_payment}
use telegram_subscription_ma.Services.PaymentService.Confirmation.{confirm_manual_payment_total}
use telegram_subscription_ma.Services.PaymentService.Settlement.{payments_of, Confirmed}
use telegram_subscription_ma.Handlers.ManualPayment.{manual_ref, record_screenshot}

confirmable :
    (later id : ℕ) (p : Subscription) (db : Database)
    → IsValid db
    → find (has_key subscription_key id) db.subscriptions ≡ some p
    → p.status ≡ pending
    → payments_of id db ≢ []
    → (s : Subscription) × (db' : Database) × (confirm_manual_payment later id db ≡ (ok s, db'))
      × Confirmed later p db s db'
confirmable later id p db v found waiting owned =
    elim (confirm_manual_payment_total later id db v) [
      | inl (absent, _) ↦ absurd (cc (absent, found))
      | inr (q, found', ends) ↦
          let same : q ≡ p = some-injective q p (sym found' ∙ found) in
          elim ends [
            | inl (inl moved, _) ↦ absurd (moved (ap (λ r. r.status) same ∙ waiting))
            | inl (inr bare, _) ↦ absurd (owned bare)
            | inr (_, _, (s, db', e, c)) ↦
                (s, db', e, subst (λ r. Confirmed later r db s db') same c)
          ]
    ]

-- The row `p` belongs to the registered user of this telegram_id.
abbrev pub IsOwnedBy : ℤ → Subscription → Database → Type 0
IsOwnedBy telegram_id p db =
    (u : User) × In u db.users × (u.telegram_id ≡ telegram_id) × (p.user_id ≡ u.id)

module _ (now local_now : ℕ) (user_id : ℤ) (message_id : ℕ) where
  abbrev placeholder : ℕ → Database → Subscription
  placeholder user db = record {
    id = db.next_subscription_id;
    user_id = user;
    status = pending;
    expires_at = none;
    last_warning_days_left = none;
    created_at = now;
  }

  abbrev payment : Database → Payment
  payment db = record {
    id = db.next_payment_id;
    subscription_id = db.next_subscription_id;
    provider = codes "manual";
    provider_ref = manual_ref user_id message_id;
    amount = get_current_price local_now * 100;
    currency = codes "PLN";
    created_at = now;
  }

  abbrev recorded : ℕ → Database → Database
  recorded user db = record db {
    subscriptions = placeholder user db ∷ db.subscriptions;
    next_subscription_id = db.next_subscription_id + 1;
    payments = payment db ∷ db.payments;
    next_payment_id = db.next_payment_id + 1;
  }

  recorded-OneLive : (user : ℕ) (db : Database) → OneLive db → OneLive (recorded user db)
  recorded-OneLive user db one k = ground (arith, one k)

  recorded-IsValid :
      (user : ℕ) (db : Database)
      → IsValid db
      → any_row (has_ref (codes "manual") (manual_ref user_id message_id)) db.payments ≡ false
      → IsValid (recorded user db)
  recorded-IsValid user db v fresh = record {
    users_keyed = v.users_keyed;
    subscriptions_keyed = (omega arith, v.subscriptions_keyed);
    payments_keyed = (omega arith, v.payments_keyed);
    telegram_unique = v.telegram_unique;
    refs_unique = (fresh, v.refs_unique);
    one_live = recorded-OneLive user db v.one_live;
    dated = (refl, v.dated);
  }

  recorded_step :
      (u : User) (db db1 : Database)
      → Users.get_or_create now user_id db ≡ (ok u, db1)
      → any_row (has_ref (codes "manual") (manual_ref user_id message_id)) db1.payments ≡ false
      → record_screenshot now local_now user_id message_id db
        ≡ (ok (placeholder u.id db1), recorded u.id db1)
  unfolding record_screenshot Subscriptions.create Payments.create
  recorded_step u db db1 e fresh = ground (arith, e, fresh)

  -- A screenshot whose message is new, of a user whose id the column INTEGER holds, on a valid
  -- database: it is recorded with a placeholder of that user, and
  -- the confirmation of that placeholder, at any later moment before anything else happens, commits a
  -- renewal.
  pub record_screenshot-confirm_manual_payment :
      (later : ℕ) (db : Database)
      → IsValid db
      → fits_integer user_id ≡ true
      → any_row (has_ref (codes "manual") (manual_ref user_id message_id)) db.payments ≡ false
      → (p : Subscription) × (db' : Database) × (record_screenshot now local_now user_id message_id
            db
          ≡ (ok p, db'))
        × IsValid db'
        × IsOwnedBy user_id p db'
        × ((s : Subscription) × (db'' : Database) × (confirm_manual_payment later p.id db'
              ≡ (ok s, db''))
            × Confirmed later p db' s db'')
  record_screenshot-confirm_manual_payment later db v fits new =
      let (u, db1, e, hu) = get_or_create_lem now user_id db v fits in
      let fresh : any_row (has_ref (codes "manual") (manual_ref user_id message_id)) db1.payments
          ≡ false =
        rw hu.same_payments new in
      let valid = recorded-IsValid u.id db1 hu.valid fresh in
      (
        placeholder u.id db1,
        recorded u.id db1,
        recorded_step u db db1 e fresh,
        valid,
        (u, hu.listed, hu.identified, refl),
        confirmable later db1.next_subscription_id (placeholder u.id db1) (recorded u.id db1) valid
            (ground arith) refl (ground arith),
      )
