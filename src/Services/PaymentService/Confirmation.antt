-- ===== src/Services/PaymentService/Confirmation.antt =====
-- `confirm_manual_payment` of app/services/payment_service.py: the admin confirms a screenshot.
use telegram_subscription_ma.Base.{
  ℕ, ◌≡◌, ◌≢◌, refl, sym, ap, subst, false, Bool-cases, Option-cases, inl, inr, none, some, List,
  [], arith, find, first, order_by, ◌⊎◌,
}
use telegram_subscription_ma.Base.Rows.{has_key, find-key}
use telegram_subscription_ma.Base.Sorted.{first-order_by-none}
use telegram_subscription_ma.Base.Action.{ok, err}
use telegram_subscription_ma.Db.Models.{
  pending, active, status_eq, SubscriptionStatus, Subscription, Payment, Database,
}
use telegram_subscription_ma.Db.Exceptions.{invalid_transition, value_error}
use telegram_subscription_ma.Db.Subscriptions
use telegram_subscription_ma.Db.Subscriptions.{is_live, live_rows, later_expiry}
use telegram_subscription_ma.Db.Payments
use telegram_subscription_ma.Db.Payments.{has_ref}
use telegram_subscription_ma.Db.Invariant.{IsValid, subscription_key}
use telegram_subscription_ma.Services.PaymentService.{confirm_manual_payment}
use telegram_subscription_ma.Services.PaymentService.Renewal.{renewed}
use telegram_subscription_ma.Services.PaymentService.Settlement.{
  payments_of, Confirmed, settle_placeholder, settle_live,
}

-- The ends of a confirmation of the row `id`: the row is missing, it is refused, or it is settled.
abbrev pub Ends : ℕ → ℕ → Database → Type 0
Ends now id db =
    ((find (has_key subscription_key id) db.subscriptions ≡ none)
      × (confirm_manual_payment now id db ≡ (err value_error, db)))
    ⊎ ((p : Subscription) × (find (has_key subscription_key id) db.subscriptions ≡ some p)
        × ((((p.status ≢ pending) ⊎ (payments_of id db ≡ []))
              × (confirm_manual_payment now id db ≡ (err (invalid_transition p.status active), db)))
            ⊎ ((p.status ≡ pending)
                × (payments_of id db ≢ [])
                × ((s : Subscription) × (db' : Database) × (confirm_manual_payment now id db
                      ≡ (ok s, db'))
                    × Confirmed now p db s db'))))

module _ (now : ℕ) (p : Subscription) (db : Database) (v : IsValid db)
    (found : find (has_key subscription_key p.id) db.subscriptions ≡ some p) where
  confirm_settles :
      (payment : Payment)
      → p.status ≡ pending
      → first (order_by Payments.by_id (payments_of p.id db)) ≡ some payment
      → (s : Subscription) × (db' : Database) × (confirm_manual_payment now p.id db ≡ (ok s, db'))
        × Confirmed now p db s db'
  unfolding confirm_manual_payment Payments.get_for_subscription Subscriptions.get_by_id
      Subscriptions.get_active_or_expiring_for_user
  confirm_settles payment is_pending owned =
      elim (Option-cases (first (order_by later_expiry (live_rows p.user_id db)))) [
        | inl absent ↦
            let (s, db', e, c) =
              settle_placeholder now db.next_subscription_id p db v found is_pending absent in
            (s, db', ground arith, c)
        | inr (s, live) ↦
            let (db', e, c) =
              settle_live now db.next_subscription_id p db v found is_pending s live in
            (renewed now s, db', ground arith, c)
      ]

  confirm_refuses :
      (p.status ≢ pending) ⊎ (first (order_by Payments.by_id (payments_of p.id db)) ≡ none)
      → confirm_manual_payment now p.id db ≡ (err (invalid_transition p.status active), db)
  unfolding confirm_manual_payment Payments.get_for_subscription Subscriptions.get_by_id
  confirm_refuses (inl moved) =
      let other : status_eq p.status pending ≡ false = ground arith in ground arith
  confirm_refuses (inr bare) = ground arith

confirm_missing :
    (now id : ℕ) (db : Database)
    → find (has_key subscription_key id) db.subscriptions ≡ none
    → confirm_manual_payment now id db ≡ (err value_error, db)
unfolding confirm_manual_payment Subscriptions.get_by_id
confirm_missing now id db absent = ground arith

first-nonempty :
    (p : Payment) (ps : List Payment) → first (order_by Payments.by_id ps) ≡ some p → ps ≢ []
unfolding order_by
first-nonempty p ps e empty = cc (rw empty at e)

confirm_found :
    (now : ℕ) (p : Subscription) (db : Database)
    → IsValid db
    → find (has_key subscription_key p.id) db.subscriptions ≡ some p
    → Ends now p.id db
confirm_found now p db v found =
    elim (Option-cases (first (order_by Payments.by_id (payments_of p.id db)))) [
      | inl bare ↦ inr (
        p,
        found,
        inl (
          inr (first-order_by-none Payments.by_id (payments_of p.id db) bare),
          confirm_refuses now p db v found (inr bare),
        ),
      )
      | inr (payment, owned) ↦ elim (Bool-cases (status_eq p.status pending)) [
        | inl same ↦
            let is_pending : p.status ≡ pending = ground arith in
            inr (
              p,
              found,
              inr (
                is_pending,
                first-nonempty payment (payments_of p.id db) owned,
                confirm_settles now p db v found payment is_pending owned,
              ),
            )
        | inr other ↦
            let moved : p.status ≢ pending = λ e. cc (other, ap (λ st. status_eq st pending) e) in
            inr (p, found, inl (inl moved, confirm_refuses now p db v found (inl moved)))
      ]
    ]

-- On every valid database a confirmation has one of three ends. With no row of that id it raises
-- ValueError. If the row is no longer pending or owns no payment, it raises InvalidTransitionError;
-- both leave the database as it was. Otherwise it commits a renewal: one row of the payer's is active
-- afterwards, stored as it was returned, the payer's account and no other is extended, the database
-- is valid, no payment reference is lost or added, and a placeholder that is not itself the renewed
-- row stays as it was and owns no payment any more.
pub confirm_manual_payment_total : (now id : ℕ) (db : Database) → IsValid db → Ends now id db
confirm_manual_payment_total now id db v =
    elim (Option-cases (find (has_key subscription_key id) db.subscriptions)) [
      | inl absent ↦ inl (absent, confirm_missing now id db absent)
      | inr (p, found) ↦
          let same : p.id ≡ id = find-key subscription_key id p db.subscriptions found in
          let found' : find (has_key subscription_key p.id) db.subscriptions ≡ some p =
            subst (λ k. find (has_key subscription_key k) db.subscriptions ≡ some p) (sym same)
              found in
          subst (λ k. Ends now k db) same (confirm_found now p db v found')
    ]

Confirmed-again :
    (now later : ℕ) (p : Subscription) (db : Database) (s : Subscription) (db' : Database)
    → Confirmed now p db s db'
    → (status : SubscriptionStatus) × (confirm_manual_payment later p.id db'
        ≡ (err (invalid_transition status active), db'))
Confirmed-again now later p db s db' c = elim c.settled [
  | inl same ↦ (
    s.status,
    rw (← same) (confirm_refuses later s db' c.valid c.stored (inl λ e. cc (e, c.is_active))),
  )
  | inr (kept, moved) ↦ (
    p.status,
    confirm_refuses later p db' c.valid kept (inr (rw moved (unfold order_by in refl))),
  )
]

-- A second tap on the same button, at whatever later moment, raises InvalidTransitionError and
-- changes nothing.
pub confirm_manual_payment_twice :
    (now later id : ℕ) (db : Database) (s : Subscription) (db' : Database)
    → IsValid db
    → confirm_manual_payment now id db ≡ (ok s, db')
    → (status : SubscriptionStatus) × (confirm_manual_payment later id db'
        ≡ (err (invalid_transition status active), db'))
confirm_manual_payment_twice now later id db s db' v done =
    elim (confirm_manual_payment_total now id db v) [
      | inl (_, e) ↦ absurd (cc (done, e))
      | inr (p, found, inl (_, e)) ↦ absurd (cc (done, e))
      | inr (p, found, inr (_, _, (s0, db0, e, c))) ↦
          let same : p.id ≡ id = find-key subscription_key id p db.subscriptions found in
          let committed : db' ≡ db0 = cc (done, e) in
          rw (committed, ← same) (Confirmed-again now later p db s0 db0 c)
    ]
