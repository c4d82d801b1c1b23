-- ===== src/Config.antt =====
-- app/config.py: what the settings make of the environment. pydantic's parsing of the values is left
-- out; the settings that the services read are in Telegram.
pub mod Urls
use telegram_subscription_ma.Base.{
  ℕ, Bool, true, false, ◌&&◌, ◌==◌, Option, none, some, List, [], ◌∷◌, ◌++◌, length, if◌then◌else◌,
  is_some,
}
use telegram_subscription_ma.Base.Text.{Text, codes}
use telegram_subscription_ma.Base.Numerals.{str_nat, strip}
use telegram_subscription_ma.Base.Action.{Result, ok, err}
use telegram_subscription_ma.Db.Exceptions.{Exception, value_error}
use telegram_subscription_ma.Telegram.{truthy}

-- `_blank_to_none`
unfoldable pub blank_to_none : Option Text → Option Text
blank_to_none none = none
blank_to_none (some value) = elim (strip value) [ [] ↦ none | c ∷ rest ↦ some value ]

-- The settings of the database.
pub record DbSettings : Type 0 where
  pub database_url : Option Text
  pub db_user : Option Text
  pub db_password : Option Text
  pub db_name : Option Text
  pub db_host : Text
  pub db_port : ℕ

abbrev pub asyncpg_url : DbSettings → Text → Text → Text → Text
asyncpg_url s user password name =
    codes "postgresql+asyncpg://"
    ++ user
    ++ b':' ∷ password
    ++ b'@' ∷ s.db_host
    ++ b':' ∷ str_nat s.db_port
    ++ b'/' ∷ name

-- The url of the parts, where none is missing or empty.
abbrev url_of : DbSettings → Option Text → Option Text → Option Text → Option Text
url_of s (some user) (some password) (some name) = some (asyncpg_url s user password name)
url_of s _ _ _ = none

-- `_build_database_url`
unfoldable pub build_database_url : DbSettings → DbSettings
build_database_url s = elim s.database_url [
  | some url ↦ s
  | none ↦ record s {
    database_url = url_of s (truthy s.db_user) (truthy s.db_password) (truthy s.db_name);
  }
]

-- What is left of a text behind a prefix.
abbrev pub after_prefix : Text → Text → Option Text
after_prefix [] text = some text
after_prefix (c ∷ prefix) [] = none
after_prefix (c ∷ prefix) (d ∷ text) = if c == d then after_prefix prefix text else none

-- `text.replace(old, new, 1)`, for an `old` that is not empty.
abbrev pub replace_first : Text → Text → Text → Text
replace_first old new [] = []
replace_first old new (c ∷ text) =
    let rest = c ∷ replace_first old new text in
    elim (after_prefix old (c ∷ text)) [ none ↦ rest | some behind ↦ new ++ behind ]

-- `sync_database_url`
unfoldable pub sync_database_url : DbSettings → Result Exception Text
sync_database_url s = elim s.database_url [
  | none ↦ err value_error
  | some url ↦ ok (replace_first (codes "+asyncpg") (codes "+psycopg") url)
]
