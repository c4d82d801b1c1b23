-- ===== src/Web/StripeWebhook/Deliveries.antt =====
-- What a delivery of a Stripe event does, in app/web/stripe_webhook.py, if it does not pay.
use telegram_subscription_ma.Base.{
  ℕ, ◌≡◌, refl, Bool, true, false, Bool-cases, Option-cases, inl, inr, none, some, arith, ◌&&◌,
  ◌||◌, first, order_by, where_rows, any_row, any_row-where_rows, subst, sym, ap, if◌then◌else◌,
}
use telegram_subscription_ma.Base.Text.{Text, codes, text_eq, text_eq_iff}
use telegram_subscription_ma.Base.Sorted.{first-order_by-none}
use telegram_subscription_ma.Base.Action.{ok}
use telegram_subscription_ma.Db.Models.{Payment, Database}
use telegram_subscription_ma.Db.Payments
use telegram_subscription_ma.Db.Payments.{has_ref}
use telegram_subscription_ma.Db.Invariant.{where_rows-any_row}
use telegram_subscription_ma.Telegram.{Bot, Settings, World}
use telegram_subscription_ma.Services.PaymentService.{provider_stripe}
use telegram_subscription_ma.Web.StripeWebhook.{
  Session, Event, Response, session_completed, async_payment_succeeded, async_payment_failed,
  handled_events, is_paid, process_event, handle_event,
}

abbrev pub is_recorded : Session → Database → Bool
is_recorded session db = any_row (has_ref provider_stripe session.id) db.payments

abbrev pub is_handled : Event → Bool
is_handled event = any_row (text_eq event.type) handled_events

-- The event says that the money has arrived.
abbrev pub is_payment : Event → Bool
is_payment event =
    text_eq event.type async_payment_succeeded
    || (text_eq event.type session_completed && is_paid event.session)

abbrev pub already_processed : Response
already_processed = record { status = 200; text = codes "already processed" }

abbrev pub in_database : Database → World → World
in_database db w = record w { database = db }

pub not_also : (t a b : Text) → text_eq t a ≡ true → text_eq a b ≡ false → text_eq t b ≡ false
not_also t a b e ne = subst (λ u. text_eq u b ≡ false) (sym ((text_eq_iff t a).0 e)) ne

pub skip_two :
    {A : Type 0} (a b : Bool) (x y z : A)
    → a ≡ false
    → b ≡ false
    → (if a then x else if b then y else z) ≡ z
skip_two a b x y z ea eb = rw (ea, eb) refl

lookup_recorded :
    (session : Session) (db : Database)
    → is_recorded session db ≡ true
    → (p : Payment) × (Payments.get_by_provider_ref provider_stripe session.id db
        ≡ (ok (some p), db))
unfolding Payments.get_by_provider_ref
lookup_recorded session db dup =
    let q = has_ref provider_stripe session.id in
    elim (Option-cases (first (order_by Payments.by_id (where_rows q db.payments)))) [
      | inl absent ↦
          let e = first-order_by-none Payments.by_id (where_rows q db.payments) absent in
          absurd (cc (dup, where_rows-any_row q db.payments (ap first e)))
      | inr (p, e) ↦ (p, ground (arith, e))
    ]

lookup_fresh :
    (session : Session) (db : Database)
    → is_recorded session db ≡ false
    → Payments.get_by_provider_ref provider_stripe session.id db ≡ (ok none, db)
unfolding Payments.get_by_provider_ref order_by
lookup_fresh session db fresh =
    ground (arith, any_row-where_rows (has_ref provider_stripe session.id) db.payments fresh)

module _ (settings : Settings) (bot : Bot) (now local_now : ℕ) (event : Event) (w : World)
    (handled : is_handled event ≡ true) where
  -- Whatever is delivered for a checkout session that is recorded, it is acknowledged, nothing is
  -- written and nobody is told.
  pub recorded_delivery :
      is_recorded event.session w.database ≡ true
      → handle_event settings bot now local_now (ok event) w ≡ (ok already_processed, w)
  unfolding handle_event process_event
  recorded_delivery dup =
      let (p, e) = lookup_recorded event.session w.database dup in ground (arith, e)

  module _ (fresh : is_recorded event.session w.database ≡ false) where
    pub looked_up :
        handle_event settings bot now local_now (ok event) w
        ≡ process_event settings bot now local_now event none w
    unfolding handle_event
    looked_up = ground (arith, lookup_fresh event.session w.database fresh)

    -- An event of a handled type that does not say that the money has arrived, for a session that
    -- is not recorded, is answered 200, and changes nothing.
    pub unpaid_delivery :
        is_payment event ≡ false
        → (text : Text) × (handle_event settings bot now local_now (ok event) w
            ≡ (ok (record { status = 200; text = text }), w))
    unfolding handle_event process_event
    unpaid_delivery unpaid =
        let e = lookup_fresh event.session w.database fresh in
        elim (Bool-cases (text_eq event.type async_payment_failed)) [
          | inl failed ↦ (codes "payment failed", ground (arith, e))
          | inr not_failed ↦ (codes "awaiting payment", ground (arith, e))
        ]
