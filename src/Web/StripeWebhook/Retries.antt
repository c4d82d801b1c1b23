-- ===== src/Web/StripeWebhook/Retries.antt =====
-- What Stripe sees of app/web/stripe_webhook.py when it delivers an event again, and at any delivery.
use telegram_subscription_ma.Base.{
  ℕ, ◌≡◌, refl, true, false, Bool-cases, Option-cases, ◌⊎◌, inl, inr, some, arith, subst, sym, ap,
}
use telegram_subscription_ma.Base.Int.{ℤ}
use telegram_subscription_ma.Base.Text.{Text, codes}
use telegram_subscription_ma.Base.Action.{ok, err, Result}
use telegram_subscription_ma.Db.Exceptions.{Exception}
use telegram_subscription_ma.Db.Invariant.{IsValid}
use telegram_subscription_ma.Telegram.{Bot, Settings, World, truthy}
use telegram_subscription_ma.Services.PaymentService.{provider_stripe, activate_paid_checkout}
use telegram_subscription_ma.Services.PaymentService.Idempotence.{recorded_again}
use telegram_subscription_ma.Web.StripeWebhook.{
  Session, Event, StripeError, invalid_payload, signature_verification_error, Verifier, Response,
  extract_telegram_id, extract_amount, report, try_activate, process_payment, handle_event,
  handle_with, handle_stripe_webhook,
}
use telegram_subscription_ma.Web.StripeWebhook.Paid.{
  unidentified_delivery, paid_delivery, oversized_payer,
}
use telegram_subscription_ma.Db.Users.{fits_integer}
use telegram_subscription_ma.Web.StripeWebhook.Deliveries.{
  is_recorded, is_handled, is_payment, already_processed, recorded_delivery, unpaid_delivery,
}

-- A delivery whose lookup was made before another delivery of the session was committed, and which
-- comes to pay after it, on a valid database and for a payer whose id the column holds: it is acknowledged as processed, nothing is written and
-- nobody is told.
pub race_lost :
    (settings : Settings) (bot : Bot) (now local_now : ℕ) (session : Session) (t : ℤ) (w : World)
    → IsValid w.database
    → fits_integer t ≡ true
    → is_recorded session w.database ≡ true
    → process_payment settings bot now local_now session (some t) w ≡ (ok already_processed, w)
unfolding process_payment try_activate activate_paid_checkout report
race_lost settings bot now local_now session t w v fits dup =
    let (amount, currency) = extract_amount local_now session in
    ground
      (arith, recorded_again now t provider_stripe session.id amount currency w.database v fits dup)

-- A response and a valid database; Stripe takes the response as final, but for a payer whose id the
-- column cannot hold.
abbrev pub Settled : World → Result StripeError Event → Result Exception Response × World → Type 0
Settled w checked r =
    (response : Response) × (w' : World) × (r ≡ (ok response, w'))
    × IsValid w'.database
    × ((response.status ≡ 200)
        ⊎ (response.status ≡ 400)
        ⊎ ((response.status ≡ 500)
            × (w' ≡ w)
            × ((event : Event) × (t : ℤ) × (checked ≡ ok event)
                × (extract_telegram_id event.session ≡ some t)
                × (fits_integer t ≡ false))))

module _ (settings : Settings) (bot : Bot) (now local_now : ℕ) (w : World)
    (v : IsValid w.database) where
  unhandled_event :
      (event : Event)
      → is_handled event ≡ false
      → handle_event settings bot now local_now (ok event) w
        ≡ (ok (record { status = 200; text = codes "ignored" }), w)
  unfolding handle_event
  unhandled_event event e = ground (arith, e)

  paid-Settled :
      (event : Event)
      → is_handled event ≡ true
      → is_recorded event.session w.database ≡ false
      → is_payment event ≡ true
      → Settled w (ok event) (handle_event settings bot now local_now (ok event) w)
  paid-Settled event handled fresh paid = elim (Option-cases (extract_telegram_id event.session)) [
    | inl nobody ↦ (
      _,
      w,
      unidentified_delivery settings bot now local_now event w handled fresh paid nobody,
      v,
      inl refl,
    )
    | inr (t, e) ↦ elim (Bool-cases (fits_integer t)) [
      | inl fits ↦
          let (s, r, act, told) =
            paid_delivery settings bot now local_now event w handled fresh paid t e v fits in
          (
            _,
            (handle_event settings bot now local_now (ok event) w).1,
            ap (λ x. (x, (handle_event settings bot now local_now (ok event) w).1)) r,
            act.valid,
            inl refl,
          )
      | inr unfit ↦ (
        _,
        w,
        oversized_payer settings bot now local_now event w handled fresh paid t e unfit,
        v,
        inr (inr (refl, refl, (event, t, refl, e, unfit))),
      )
    ]
  ]

  fresh-Settled :
      (event : Event)
      → is_handled event ≡ true
      → is_recorded event.session w.database ≡ false
      → Settled w (ok event) (handle_event settings bot now local_now (ok event) w)
  fresh-Settled event handled fresh = elim (Bool-cases (is_payment event)) [
    | inl paid ↦ paid-Settled event handled fresh paid
    | inr unpaid ↦
        let (text, e) = unpaid_delivery settings bot now local_now event w handled fresh unpaid in
        (_, w, e, v, inl refl)
  ]

  handle_event-Settled :
      (checked : Result StripeError Event)
      → Settled w checked (handle_event settings bot now local_now checked w)
  unfolding handle_event
  handle_event-Settled (err invalid_payload) = (_, w, refl, v, inr (inl refl))
  handle_event-Settled (err signature_verification_error) = (_, w, refl, v, inr (inl refl))
  handle_event-Settled (ok event) = elim (Bool-cases (is_handled event)) [
    | inl handled ↦ elim (Bool-cases (is_recorded event.session w.database)) [
      | inl dup ↦
          (_, w, recorded_delivery settings bot now local_now event w handled dup, v, inl refl)
      | inr fresh ↦ fresh-Settled event handled fresh
    ]
    | inr ignored ↦ (_, w, unhandled_event event ignored, v, inl refl)
  ]

  -- With a secret configured, and on a valid database, no request makes the handler raise, whatever
  -- stripe's check of the signature says and however Telegram answers, and the database is valid
  -- again. It answers 200 or 400, or else 500 and changes nothing, which it does only for a payer
  -- whose id the column INTEGER cannot hold.
  pub handle_stripe_webhook-Settled :
      (secret : Text)
      → truthy settings.stripe_webhook_secret ≡ some secret
      → (verify : Verifier) (payload signature : Text)
      → Settled w
          (verify payload signature secret)
          (handle_stripe_webhook settings bot verify now local_now payload signature w)
  unfolding handle_stripe_webhook handle_with
  handle_stripe_webhook-Settled secret set verify payload signature =
      subst
        (λ o.
          Settled w (verify payload signature secret)
            (handle_with settings bot verify now local_now payload signature o w))
        (sym set) (handle_event-Settled (verify payload signature secret))

-- With a secret configured, what stripe's check refuses changes nothing and is answered 400.
pub unverified_rejected :
    (settings : Settings) (bot : Bot) (now local_now : ℕ) (w : World) (secret : Text)
    → truthy settings.stripe_webhook_secret ≡ some secret
    → (verify : Verifier) (payload signature : Text) (e : StripeError)
    → verify payload signature secret ≡ err e
    → (text : Text) × (handle_stripe_webhook settings bot verify now local_now payload signature w
        ≡ (ok (record { status = 400; text = text }), w))
unfolding handle_stripe_webhook handle_with handle_event
unverified_rejected settings bot now l w secret set verify payload signature invalid_payload
      rejected =
    (codes "invalid payload", ground (arith, rejected, set))
unverified_rejected settings bot now l w secret set verify payload signature
      signature_verification_error rejected =
    (codes "invalid signature", ground (arith, rejected, set))
