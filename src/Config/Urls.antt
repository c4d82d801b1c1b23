-- ===== src/Config/Urls.antt =====
-- The two urls of the database.
use telegram_subscription_ma.Base.{◌≡◌, none, some, ◌∷◌, ◌++◌, arith}
use telegram_subscription_ma.Base.Text.{Text, codes}
use telegram_subscription_ma.Base.Numerals.{str_nat}
use telegram_subscription_ma.Base.Action.{ok}
use telegram_subscription_ma.Telegram.{truthy}
use telegram_subscription_ma.Config.{DbSettings, build_database_url, sync_database_url}

-- The url for APScheduler of settings that give the parts of the database and no url: the same
-- user, password, host, port and name, whatever they contain, over the synchronous driver.
pub sync_database_url-build_database_url :
    (s : DbSettings) (user password name : Text)
    → s.database_url ≡ none
    → truthy s.db_user ≡ some user
    → truthy s.db_password ≡ some password
    → truthy s.db_name ≡ some name
    → sync_database_url (build_database_url s)
      ≡ ok (
          codes "postgresql+psycopg://"
          ++ user
          ++ b':' ∷ password
          ++ b'@' ∷ s.db_host
          ++ b':' ∷ str_nat s.db_port
          ++ b'/' ∷ name)
unfolding sync_database_url build_database_url
sync_database_url-build_database_url s user password name unset u p n =
    ground (arith, unset, u, p, n)
