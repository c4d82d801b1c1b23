-- ===== src/System/Recorded.antt =====
-- Recorded payments, across the steps of System.
use telegram_subscription_ma.Base.{
  ℕ, ◌≡◌, sym, ap, ◌∙◌, subst, true, Bool-cases, inl, inr, ◌∷◌, arith, any_row,
}
use telegram_subscription_ma.Base.Int.{ℤ}
use telegram_subscription_ma.Base.Text.{Text}
use telegram_subscription_ma.Db.Models.{Payment, Database}
use telegram_subscription_ma.Db.Users
use telegram_subscription_ma.Db.Users.{fits_integer}
use telegram_subscription_ma.Db.Subscriptions
use telegram_subscription_ma.Db.Payments
use telegram_subscription_ma.Db.Payments.{has_ref}
use telegram_subscription_ma.Db.Invariant.{IsValid}
use telegram_subscription_ma.Db.Laws.{get_or_create_lem, get_or_create_unfit}
use telegram_subscription_ma.Services.PaymentService.{activate_subscription, confirm_manual_payment}
use telegram_subscription_ma.Services.PaymentService.Activation.{activate_subscription_total}
use telegram_subscription_ma.Services.PaymentService.Idempotence.{activate_subscription_unfit}
use telegram_subscription_ma.Services.PaymentService.Confirmation.{confirm_manual_payment_total}
use telegram_subscription_ma.System.{
  Step, activate, confirm, register, place, record_payment, asked, move, mark, Reach, here, next,
}
use telegram_subscription_ma.System.Invariant.{Reach-IsValid}

module _ (p r : Text) where
  abbrev pub HasRef : Database → Type 0
  HasRef db = any_row (has_ref p r) db.payments ≡ true

  same-HasRef : (db db' : Database) → db'.payments ≡ db.payments → HasRef db → HasRef db'
  same-HasRef db db' same h = ap (any_row (has_ref p r)) same ∙ h

  more-HasRef :
      (q : Payment) (db db' : Database) → db'.payments ≡ q ∷ db.payments → HasRef db → HasRef db'
  more-HasRef q db db' more h = ap (any_row (has_ref p r)) more ∙ ground (arith, h)

  activate-HasRef :
      (now : ℕ) (t : ℤ) (provider provider_ref : Text) (amount : ℕ) (currency : Text)
      (db : Database)
      → IsValid db
      → HasRef db
      → HasRef (activate_subscription now t provider provider_ref amount currency db).1
  activate-HasRef now t provider provider_ref amount currency db v h =
      elim (Bool-cases (fits_integer t)) [
        | inl fits ↦
            elim (activate_subscription_total now t provider provider_ref amount currency db v
              fits) [
                | inl (_, e) ↦ subst (λ s. HasRef s.1) (sym e) h
                | inr (_, (s, db', e, act)) ↦
                    subst (λ s. HasRef s.1) (sym e) (more-HasRef _ db db' act.recorded h)
              ]
        | inr unfit ↦
            subst (λ s. HasRef s.1)
              (sym
                (activate_subscription_unfit now t provider provider_ref amount currency db unfit))
              h
      ]

  confirm-HasRef :
      (now id : ℕ) (db : Database)
      → IsValid db
      → HasRef db
      → HasRef (confirm_manual_payment now id db).1
  confirm-HasRef now id db v h = elim (confirm_manual_payment_total now id db v) [
    | inl (_, e) ↦ subst (λ s. HasRef s.1) (sym e) h
    | inr (q, _, inl (_, e)) ↦ subst (λ s. HasRef s.1) (sym e) h
    | inr (q, _, inr (_, _, (s, db', e, c))) ↦ subst (λ s. HasRef s.1) (sym e) (c.refs p r ∙ h)
  ]

  register-HasRef :
      (now : ℕ) (t : ℤ) (db : Database)
      → IsValid db
      → HasRef db
      → HasRef (Users.get_or_create now t db).1
  register-HasRef now t db v h = elim (Bool-cases (fits_integer t)) [
    | inl fits ↦
        let (u, db', e, hu) = get_or_create_lem now t db v fits in
        subst (λ s. HasRef s.1) (sym e) (same-HasRef db db' hu.same_payments h)
    | inr unfit ↦ subst (λ s. HasRef s.1) (sym (get_or_create_unfit now t db unfit)) h
  ]

  Step-HasRef : {db db' : Database} → Step db db' → IsValid db → HasRef db → HasRef db'
  unfolding Subscriptions.create Payments.create Users.set_last_question_at
      Subscriptions.update_status Subscriptions.set_last_warning_days_left
  Step-HasRef {db} (activate now t provider provider_ref amount currency e) v h =
      subst HasRef (sym e) (activate-HasRef now t provider provider_ref amount currency db v h)
  Step-HasRef {db} (confirm now id e) v h = subst HasRef (sym e) (confirm-HasRef now id db v h)
  Step-HasRef {db} (register now t e) v h = subst HasRef (sym e) (register-HasRef now t db v h)
  Step-HasRef {db} (place now user_id e) v h = subst HasRef (sym e) h
  Step-HasRef {db} (record_payment now id provider provider_ref amount currency e) v h =
      subst HasRef (sym e) (ground (arith, h))
  Step-HasRef {db} (asked id moment e) v h = subst HasRef (sym e) (ground (arith, h))
  Step-HasRef {db} (move id status down e) v h = subst HasRef (sym e) (ground (arith, h))
  Step-HasRef {db} (mark id d e) v h = subst HasRef (sym e) (ground (arith, h))

  pub Reach-HasRef : {db db' : Database} → Reach db db' → IsValid db → HasRef db → HasRef db'
  Reach-HasRef here v h = h
  Reach-HasRef (next before st) v h =
      Step-HasRef st (Reach-IsValid before v) (Reach-HasRef before v h)
