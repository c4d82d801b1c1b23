-- ===== src/Db/Models.antt =====
-- app/db/models.py: the three tables. A datetime is the number of microseconds since
-- 1970-01-01T00:00Z, a `Numeric(10, 2)` amount the number of its hundredths.
use telegram_subscription_ma.Base.{ℕ, Bool, true, false, Option, List, []}
use telegram_subscription_ma.Base.Text.{Text}
use telegram_subscription_ma.Base.Int.{ℤ}

pub data SubscriptionStatus : Type 0 where
  pending active expiring expired kicked : SubscriptionStatus

-- `==` of the enumeration's members.
abbrev pub status_eq : SubscriptionStatus → SubscriptionStatus → Bool
status_eq pending pending = true
status_eq active active = true
status_eq expiring expiring = true
status_eq expired expired = true
status_eq kicked kicked = true
status_eq _ _ = false

pub record User : Type 0 where
  pub id : ℕ
  pub telegram_id : ℤ
  pub created_at : ℕ
  pub last_question_at : Option ℕ

pub record Subscription : Type 0 where
  pub id : ℕ
  pub user_id : ℕ
  pub status : SubscriptionStatus
  pub expires_at : Option ℕ
  pub last_warning_days_left : Option ℕ
  pub created_at : ℕ

pub record Payment : Type 0 where
  pub id : ℕ
  pub subscription_id : ℕ
  pub provider : Text
  pub provider_ref : Text
  pub amount : ℕ
  pub currency : Text
  pub created_at : ℕ

-- The database: the rows of each table, newest first, and the sequences of the primary keys.
pub record Database : Type 0 where
  pub users : List User
  pub subscriptions : List Subscription
  pub payments : List Payment
  pub next_user_id : ℕ
  pub next_subscription_id : ℕ
  pub next_payment_id : ℕ

abbrev pub empty_database : Database
empty_database = record {
  users = [];
  subscriptions = [];
  payments = [];
  next_user_id = 1;
  next_subscription_id = 1;
  next_payment_id = 1;
}
