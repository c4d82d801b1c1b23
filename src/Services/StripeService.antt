-- ===== src/Services/StripeService.antt =====
-- app/services/stripe_service.py: what the checkout session is created with. `settings.bot_username`
-- is an argument; Stripe's answer, the url of the page or an exception, is a parameter.
use telegram_subscription_ma.Base.{ℕ, ◌*◌, List, [], ◌∷◌, ◌++◌}
use telegram_subscription_ma.Base.Int.{ℤ}
use telegram_subscription_ma.Base.Text.{Text, codes}
use telegram_subscription_ma.Base.Numerals.{str_int}
use telegram_subscription_ma.Base.Action.{Result}
use telegram_subscription_ma.Db.Exceptions.{Exception}
use telegram_subscription_ma.Domain.Pricing.{get_current_price}

-- The arguments of `stripe.checkout.Session.create`; of its one line item, `name` is the name in
-- `product_data`.
pub record CheckoutRequest : Type 0 where
  pub payment_method_types : List Text
  pub mode : Text
  pub currency : Text
  pub unit_amount : ℕ
  pub name : Text
  pub quantity : ℕ
  pub client_reference_id : Text
  pub success_url : Text
  pub cancel_url : Text

unfoldable pub create_checkout_session : Text → ℕ → ℤ → CheckoutRequest
create_checkout_session bot_username local_now telegram_id = record {
  payment_method_types = codes "card" ∷ codes "blik" ∷ [];
  mode = codes "payment";
  currency = codes "pln";
  unit_amount = get_current_price local_now * 100;
  name = codes "DressCode by Irina — monthly access";
  quantity = 1;
  client_reference_id = str_int telegram_id;
  success_url = codes "https://t.me/" ++ bot_username ++ codes "?start=payment_success";
  cancel_url = codes "https://t.me/" ++ bot_username ++ codes "?start=payment_cancelled";
}

-- How `stripe.checkout.Session.create` answers such a request.
abbrev pub Stripe : Type 0
Stripe = CheckoutRequest → Result Exception Text
