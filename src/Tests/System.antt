-- ===== src/Tests/System.antt =====
-- The theorems about the whole program at a concrete run.
use telegram_subscription_ma.Base.{◌≡◌, refl, ◌+◌, ◌*◌, none, some, List, [], ◌∷◌}
use telegram_subscription_ma.Base.Text.{codes}
use telegram_subscription_ma.Db.Invariant.{IsValid}
use telegram_subscription_ma.System.{Reach}
use telegram_subscription_ma.System.Turns.{
  App, Turn, update, kick_run, warning_run, run, run-IsValid,
}
use telegram_subscription_ma.System.Redelivery.{delivered_again}
use telegram_subscription_ma.Base.Action.{ok}
use telegram_subscription_ma.Web.StripeWebhook.{handle_event}
use telegram_subscription_ma.Web.StripeWebhook.Deliveries.{already_processed}
use telegram_subscription_ma.Handlers.Router.{message}
use telegram_subscription_ma.Tests.Bot.{question, around}
use telegram_subscription_ma.Tests.Jobs.{obliging, live_settings, quiet_world}
use telegram_subscription_ma.Tests.Web.{card_payment, blik_succeeded, annas_reference}
use telegram_subscription_ma.Tests.Data.{noon, shop, shop-IsValid, day_length}
use telegram_subscription_ma.Base.Int.{pos}

-- A client opens the bot, the jobs run, and the client asks for the subscription.
abbrev a_week : List Turn
a_week =
    update around (message question (some (codes "start", none)))
    ∷ kick_run live_settings obliging (noon + 10 * day_length)
    ∷ warning_run obliging (noon + 9 * day_length)
    ∷ update around (message question none)
    ∷ []

abbrev idle : App
idle = record { world = quiet_world; states = λ k. none }

run-IsValid_example :
    Reach shop (run a_week idle).world.database × IsValid (run a_week idle).world.database
run-IsValid_example = run-IsValid a_week idle shop-IsValid

delivered_again_example :
    let paid : App = record idle {
      world = (handle_event live_settings obliging noon noon (ok card_payment) quiet_world).1;
    } in
    let app' = run a_week paid in
    handle_event live_settings obliging (noon + 11 * day_length) noon (ok blik_succeeded) app'.world
    ≡ (ok already_processed, app'.world)
delivered_again_example =
    delivered_again live_settings obliging noon noon card_payment idle refl refl refl (pos 101)
      annas_reference shop-IsValid refl a_week live_settings obliging (noon + 11 * day_length) noon
      blik_succeeded refl refl
