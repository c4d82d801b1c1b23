-- ===== src/System/Invariant.antt =====
-- The invariant of the database, across the steps of System, of which no two overlap.
use telegram_subscription_ma.Base.{ℕ, sym, subst, Bool-cases, inl, inr}
use telegram_subscription_ma.Base.Int.{ℤ}
use telegram_subscription_ma.Base.Text.{Text}
use telegram_subscription_ma.Db.Models.{Database}
use telegram_subscription_ma.Db.Users.{fits_integer}
use telegram_subscription_ma.Db.Invariant.{IsValid}
use telegram_subscription_ma.Db.Preservation.{
  placeholder-IsValid, payment-IsValid, get_or_create-IsValid, update_status-IsValid,
  set_last_warning_days_left-IsValid,
}
use telegram_subscription_ma.Db.Preservation.LastQuestion.{set_last_question_at-IsValid}
use telegram_subscription_ma.Services.PaymentService.{activate_subscription, confirm_manual_payment}
use telegram_subscription_ma.Services.PaymentService.Activation.{activate_subscription_total}
use telegram_subscription_ma.Services.PaymentService.Idempotence.{activate_subscription_unfit}
use telegram_subscription_ma.Services.PaymentService.Confirmation.{confirm_manual_payment_total}
use telegram_subscription_ma.System.{
  Step, activate, confirm, register, place, record_payment, asked, move, mark, Reach, here, next,
}

activate-IsValid :
    (now : ℕ) (t : ℤ) (provider provider_ref : Text) (amount : ℕ) (currency : Text) (db : Database)
    → IsValid db
    → IsValid (activate_subscription now t provider provider_ref amount currency db).1
activate-IsValid now t provider provider_ref amount currency db v =
    elim (Bool-cases (fits_integer t)) [
      | inl fits ↦
          elim (activate_subscription_total now t provider provider_ref amount currency db v fits) [
            | inl (_, e) ↦ subst (λ r. IsValid r.1) (sym e) v
            | inr (_, (s, db', e, act)) ↦ subst (λ r. IsValid r.1) (sym e) act.valid
          ]
      | inr unfit ↦
          subst (λ r. IsValid r.1)
            (sym (activate_subscription_unfit now t provider provider_ref amount currency db unfit))
            v
    ]

confirm-IsValid :
    (now id : ℕ) (db : Database) → IsValid db → IsValid (confirm_manual_payment now id db).1
confirm-IsValid now id db v = elim (confirm_manual_payment_total now id db v) [
  | inl (_, e) ↦ subst (λ r. IsValid r.1) (sym e) v
  | inr (p, _, inl (_, e)) ↦ subst (λ r. IsValid r.1) (sym e) v
  | inr (p, _, inr (_, _, (s, db', e, c))) ↦ subst (λ r. IsValid r.1) (sym e) c.valid
]

Step-IsValid : {db db' : Database} → Step db db' → IsValid db → IsValid db'
Step-IsValid {db} (activate now t provider provider_ref amount currency e) v =
    subst IsValid (sym e) (activate-IsValid now t provider provider_ref amount currency db v)
Step-IsValid {db} (confirm now id e) v = subst IsValid (sym e) (confirm-IsValid now id db v)
Step-IsValid {db} (register now t e) v = subst IsValid (sym e) (get_or_create-IsValid now t db v)
Step-IsValid {db} (place now user_id e) v =
    subst IsValid (sym e) (placeholder-IsValid now user_id db v)
Step-IsValid {db} (record_payment now id provider provider_ref amount currency e) v =
    subst IsValid (sym e) (payment-IsValid now id provider provider_ref amount currency db v)
Step-IsValid {db} (asked id moment e) v =
    subst IsValid (sym e) (set_last_question_at-IsValid id moment db v)
Step-IsValid {db} (move id status down e) v =
    subst IsValid (sym e) (update_status-IsValid id db v status down)
Step-IsValid {db} (mark id d e) v =
    subst IsValid (sym e) (set_last_warning_days_left-IsValid id db v d)

-- However the handlers, the webhook and the jobs take turns, none of their transactions overlapping, a
-- valid database stays valid: keys and references stay unique, no user has two live subscriptions,
-- and exactly the placeholders lack an expiry.
pub Reach-IsValid : {db db' : Database} → Reach db db' → IsValid db → IsValid db'
Reach-IsValid here v = v
Reach-IsValid (next r st) v = Step-IsValid st (Reach-IsValid r v)
