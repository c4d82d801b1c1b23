-- ===== src/Tests/Reports.antt =====
-- The theorems about reports and settings at concrete inputs.
use telegram_subscription_ma.Base.{◌≡◌, ◌↔◌, refl, none, some, [], ◌∷◌, ◌++◌}
use telegram_subscription_ma.Base.Text.{codes}
use telegram_subscription_ma.Base.Numerals.{strip}
use telegram_subscription_ma.Base.Action.{ok}
use telegram_subscription_ma.Db.Subscriptions.{list_users_with_multiple_live_subscriptions}
use telegram_subscription_ma.Db.Invariant.{OneLive}
use telegram_subscription_ma.Db.Duplicates.{list_users_with_multiple_live_subscriptions-iff-OneLive}
use telegram_subscription_ma.Config.{DbSettings, blank_to_none}
use telegram_subscription_ma.Handlers.Subscribers.{Row, Tally, empty_tally}
use telegram_subscription_ma.Tests.Data.{anna, annas}
use telegram_subscription_ma.Tests.Jobs.{doubled}

list_users_with_multiple_live_subscriptions-iff-OneLive_example :
    (list_users_with_multiple_live_subscriptions doubled.database ≡ (ok [], doubled.database))
    ↔ OneLive doubled.database
list_users_with_multiple_live_subscriptions-iff-OneLive_example =
    list_users_with_multiple_live_subscriptions-iff-OneLive doubled.database

abbrev production : DbSettings
production = record {
  database_url = none;
  db_user = some (codes "bot");
  db_password = some (codes "s+asyncpg");
  db_name = some (codes "bot");
  db_host = codes "db";
  db_port = 5432;
}

blank_key : blank_to_none (some (codes "  ")) ≡ none
unfolding blank_to_none strip
blank_key = refl

abbrev annas_row : Row
annas_row = record { subscription = annas; user = some anna; payments = [] }

abbrev reported : Tally
reported = record (empty_tally none) {
  lines =
      (codes "⚠" ++ 0xFE0F ∷ codes " CHANNEL_ID не настроен — колонка статуса в канале пропущена.")
      ∷ []
      ∷ codes "Anna — id 101 — provider: — — до 2027-01-03"
      ∷ [];
  provider_counts = (codes "—", 1) ∷ [];
}
