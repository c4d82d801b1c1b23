-- ===== src/Tests/Data.antt =====
-- A small database: user 1 has a live subscription, user 2 a placeholder with its payment.
use telegram_subscription_ma.Base.{ℕ, ◌+◌, ◌*◌, none, some, [], ◌∷◌, arith, refl}
use telegram_subscription_ma.Base.Int.{pos}
use telegram_subscription_ma.Base.Text.{codes}
use telegram_subscription_ma.Db.Models.{pending, active, User, Subscription, Payment, Database}
use telegram_subscription_ma.Db.Invariant.{IsValid, OneLive}

abbrev pub day_length : ℕ
day_length = 86_400_000_000

-- 2027-01-01
abbrev pub noon : ℕ
noon = 1_798_761_600_000_000

abbrev pub anna : User
anna = record { id = 1; telegram_id = pos 101; created_at = 0; last_question_at = none }

abbrev pub boris : User
boris = record { id = 2; telegram_id = pos 202; created_at = 0; last_question_at = none }

abbrev pub annas : Subscription
annas = record {
  id = 1;
  user_id = 1;
  status = active;
  expires_at = some (noon + 2 * day_length);
  last_warning_days_left = none;
  created_at = 0;
}

abbrev pub boriss : Subscription
boriss = record {
  id = 2;
  user_id = 2;
  status = pending;
  expires_at = none;
  last_warning_days_left = none;
  created_at = 0;
}

abbrev pub boriss_payment : Payment
boriss_payment = record {
  id = 1;
  subscription_id = 2;
  provider = codes "manual";
  provider_ref = codes "manual-202-7";
  amount = 5500;
  currency = codes "PLN";
  created_at = 0;
}

abbrev pub shop : Database
shop = record {
  users = boris ∷ anna ∷ [];
  subscriptions = boriss ∷ annas ∷ [];
  payments = boriss_payment ∷ [];
  next_user_id = 3;
  next_subscription_id = 3;
  next_payment_id = 2;
}

shop-OneLive : OneLive shop
shop-OneLive u = ground arith

pub shop-IsValid : IsValid shop
shop-IsValid = record {
  users_keyed = omega arith;
  subscriptions_keyed = omega arith;
  payments_keyed = omega arith;
  telegram_unique = (refl, (refl, tt));
  refs_unique = (refl, tt);
  one_live = shop-OneLive;
  dated = (refl, (refl, tt));
}
