-- ===== src/Db/Exceptions.antt =====
-- The exceptions that the program raises or lets pass, of app/db/repositories.py,
-- app/domain/subscription.py, SQLAlchemy and the standard library.
use telegram_subscription_ma.Base.Text.{Text}
use telegram_subscription_ma.Base.Action.{Action}
use telegram_subscription_ma.Db.Models.{SubscriptionStatus, Database}

pub data Exception : Type 0 where
  -- DuplicatePaymentError(provider, provider_ref)
  duplicate_payment : Text → Text → Exception
  -- InvalidTransitionError(from_status, to_status)
  invalid_transition : SubscriptionStatus → SubscriptionStatus → Exception
  value_error : Exception
  key_error : Exception
  type_error : Exception
  index_error : Exception
  attribute_error : Exception
  -- sqlalchemy.exc
  integrity_error : Exception
  data_error : Exception
  multiple_results_found : Exception
  -- aiogram.exceptions
  telegram_api_error : Exception
  -- stripe.StripeError
  stripe_error : Exception

-- A repository call: a coroutine over the database.
abbrev pub Query : Type 0 → Type 0
Query A = Action Database Exception A
