-- ===== src/Telegram.antt =====
-- The Telegram Bot API as the program calls it through aiogram, which is a parameter: a `Bot` says
-- how each call is answered, which may depend on every call made before. The calls are recorded.
pub mod ReadOnly
use telegram_subscription_ma.Base.{ℕ, Bool, true, false, Option, none, some, List, [], ◌∷◌}
use telegram_subscription_ma.Base.Int.{ℤ}
use telegram_subscription_ma.Base.Text.{Text}
use telegram_subscription_ma.Base.Action.{Action, Result, ok, err}
use telegram_subscription_ma.Db.Models.{Database}
use telegram_subscription_ma.Db.Exceptions.{Exception, telegram_api_error, Query}

-- aiogram.enums.ChatMemberStatus
pub data ChatMemberStatus : Type 0 where
  creator administrator member restricted left kicked : ChatMemberStatus

-- An inline keyboard, by its rows; the empty one stands for `reply_markup=None`.
pub data ButtonAction : Type 0 where
  callback_data url : Text → ButtonAction

pub record InlineKeyboardButton : Type 0 where
  pub text : Text
  pub action : ButtonAction

abbrev pub InlineKeyboardMarkup : Type 0
InlineKeyboardMarkup = List (List InlineKeyboardButton)

-- A chat is a person, by telegram_id, or the channel, by its configured name. A message is known by
-- its chat and its number in it, a file by its file_id or its path.
pub data Call : Type 0 where
  send_message : ℤ → Text → Call
  create_chat_invite_link : Text → Text → ℕ → Call
  get_chat_member : Text → ℤ → Call
  ban_chat_member : Text → ℤ → Call
  unban_chat_member : Text → ℤ → Bool → Call
  get_chat : ℤ → Call
  -- send_message with a keyboard
  send_menu : ℤ → Text → InlineKeyboardMarkup → Call
  send_photo send_document send_video : ℤ → Text → Text → InlineKeyboardMarkup → Call
  edit_message_text edit_message_caption : ℤ → ℕ → Text → InlineKeyboardMarkup → Call
  -- the callback query's id, and the notice that is shown
  answer_callback_query : Text → Option Text → Call

-- What `get_chat` tells of a chat.
pub record ChatInfo : Type 0 where
  pub full_name : Option Text
  pub username : Option Text

-- `false` and `none` stand for a TelegramAPIError. The first argument is the calls so far, the newest
-- first.
pub record Bot : Type 0 where
  pub delivers : List Call → ℤ → Text → Bool
  pub invites : List Call → Text → Text → Option Text
  pub membership : List Call → Text → ℤ → Option ChatMemberStatus
  pub bans : List Call → Text → ℤ → Bool
  pub unbans : List Call → Text → ℤ → Bool
  pub chat_info : List Call → ℤ → Option ChatInfo
  -- the calls that answer nothing but whether they were accepted
  pub accepts : List Call → Call → Bool

-- app/config.py, as far as the services and jobs read it.
pub record Settings : Type 0 where
  pub admin_id : ℤ
  pub channel_id : Option Text
  pub stripe_webhook_secret : Option Text
  pub dry_run_kick : Bool

-- `settings.channel_id`, tested for truth: an empty text counts as no channel.
abbrev pub truthy : Option Text → Option Text
truthy none = none
truthy (some []) = none
truthy (some (c ∷ s)) = some (c ∷ s)

pub record World : Type 0 where
  pub database : Database
  pub calls : List Call

abbrev pub Program : Type 0 → Type 0
Program A = Action World Exception A

-- A repository call or a transaction.
abbrev pub in_db : {A : Type 0} → Query A → Program A
in_db q w = let (r, db) = q w.database in (r, record w { database = db })

-- A call of the Bot API.
abbrev pub call : {A : Type 0} → Call → (List Call → A) → Program A
call c answer w = (ok (answer w.calls), record w { calls = c ∷ w.calls })

-- A call whose TelegramAPIError is not caught on the spot.
abbrev pub raise_unless : Bool → Result Exception (Unit {0})
raise_unless true = ok tt
raise_unless false = err telegram_api_error

abbrev pub perform : Bot → Call → Program (Unit {0})
perform bot c w = (raise_unless (bot.accepts w.calls c), record w { calls = c ∷ w.calls })

-- `send_message` without a keyboard, for which `message.answer` is short.
abbrev pub answer : Bot → ℤ → Text → Program (Unit {0})
answer bot chat text w = (
  raise_unless (bot.delivers w.calls chat text),
  record w { calls = send_message chat text ∷ w.calls },
)
