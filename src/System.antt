-- ===== src/System.antt =====
-- The database while the whole program runs, for serial schedules: the handlers of app/handlers.py, the
-- webhook and the jobs take turns, transaction by transaction, in any order and on arguments that may
-- be out of date, but no two transactions overlap. PostgreSQL's READ COMMITTED lets them overlap, and
-- what then goes wrong is in Services/PaymentService/Race.
pub mod Invariant
pub mod Clients
pub mod Handlers
pub mod Recorded
pub mod Jobs
pub mod Webhook
pub mod Access
pub mod Turns
pub mod Redelivery
pub mod Dispatch
use telegram_subscription_ma.Base.{ℕ, ◌≡◌, true, Option, none}
use telegram_subscription_ma.Base.Int.{ℤ}
use telegram_subscription_ma.Base.Text.{Text}
use telegram_subscription_ma.Db.Models.{SubscriptionStatus, pending, Database}
use telegram_subscription_ma.Db.Users
use telegram_subscription_ma.Db.Subscriptions
use telegram_subscription_ma.Db.Payments
use telegram_subscription_ma.Db.Preservation.{is_downward}
use telegram_subscription_ma.Services.PaymentService.{activate_subscription, confirm_manual_payment}

-- The transactions that the program runs, each by itself, and each of which may commit or roll back.
pub data Step (db db' : Database) : Type 0 where
  -- the webhook and /activate
  activate :
      (now : ℕ) (telegram_id : ℤ) (provider provider_ref : Text) (amount : ℕ) (currency : Text)
      → db' ≡ (activate_subscription now telegram_id provider provider_ref amount currency db).1
      → Step db db'
  -- the admin's confirmation of a screenshot
  confirm : (now id : ℕ) → db' ≡ (confirm_manual_payment now id db).1 → Step db db'
  -- a screenshot, in three transactions, and a question
  register : (now : ℕ) (t : ℤ) → db' ≡ (Users.get_or_create now t db).1 → Step db db'
  place :
      (now user_id : ℕ) → db' ≡ (Subscriptions.create now user_id none pending db).1 → Step db db'
  record_payment :
      (now subscription_id : ℕ) (provider provider_ref : Text) (amount : ℕ) (currency : Text)
      → db' ≡ (Payments.create now subscription_id provider provider_ref amount currency db).1
      → Step db db'
  asked : (id moment : ℕ) → db' ≡ (Users.set_last_question_at id moment db).1 → Step db db'
  -- the jobs
  move :
      (id : ℕ) (status : SubscriptionStatus)
      → is_downward status ≡ true
      → db' ≡ (Subscriptions.update_status id status none db).1
      → Step db db'
  mark :
      (id : ℕ) (days_left : Option ℕ)
      → db' ≡ (Subscriptions.set_last_warning_days_left id days_left db).1
      → Step db db'

-- Any number of them, one after the other.
pub data Reach (db : Database) : Database → Type 0 where
  here : Reach db db
  next : {db1 db2 : Database} → Reach db db1 → Step db1 db2 → Reach db db2
