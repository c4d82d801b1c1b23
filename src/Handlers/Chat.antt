-- ===== src/Handlers/Chat.antt =====
-- What aiogram hands to a handler of app/handlers.py: a message or a callback query, and the state of
-- the conversation with its sender.
use telegram_subscription_ma.Base.{ℕ, Bool, Option, none, some}
use telegram_subscription_ma.Base.Int.{ℤ}
use telegram_subscription_ma.Base.Text.{Text, codes}
use telegram_subscription_ma.Base.Action.{Action, ok}
use telegram_subscription_ma.Db.Exceptions.{Exception}
use telegram_subscription_ma.Telegram.{
  edit_message_text, answer_callback_query, send_menu, Bot, InlineKeyboardMarkup, World, Program,
  perform,
}
use telegram_subscription_ma.Handlers.Targets.{Origin}

-- aiogram.types.User
pub record TelegramUser : Type 0 where
  pub id : ℤ
  pub full_name : Text
  pub username : Option Text

-- aiogram.types.Message. A photo is the file_id of its largest size, a document its file_id and its
-- mime type; a message that is replied to is known by where it was forwarded from.
pub record Message : Type 0 where
  pub chat : ℤ
  pub message_id : ℕ
  pub from_user : TelegramUser
  pub text : Option Text
  pub caption : Option Text
  pub photo : Option Text
  pub document : Option (Text × Option Text)
  pub has_video : Bool
  pub reply_to_message : Option (Option Origin)

pub record CallbackQuery : Type 0 where
  pub id : Text
  pub from_user : TelegramUser
  pub sent_data : Text
  pub message : Message

-- QuestionState and ScreenshotState
pub data Waiting : Type 0 where
  waiting_for_question waiting_for_screenshot : Waiting

-- The world, and the state that MemoryStorage keeps for the conversation.
pub record Chat : Type 0 where
  pub world : World
  pub state : Option Waiting

abbrev pub Handler : Type 0 → Type 0
Handler A = Action Chat Exception A

abbrev pub in_world : {A : Type 0} → Program A → Handler A
in_world p c = let (r, w) = p c.world in (r, record c { world = w })

-- `state.set_state(…)`, and `state.clear()`, which sets none.
abbrev pub set_state : Option Waiting → Handler (Unit {0})
set_state s c = (ok tt, record c { state = s })

abbrev pub clear : Handler (Unit {0})
clear = set_state none

-- `message.answer`, `message.edit_text` and `callback.answer`
abbrev pub answer_with : Bot → Message → Text → InlineKeyboardMarkup → Program (Unit {0})
answer_with bot message text markup = perform bot (send_menu message.chat text markup)

abbrev pub edit_text : Bot → Message → Text → InlineKeyboardMarkup → Program (Unit {0})
edit_text bot message text markup =
    perform bot (edit_message_text message.chat message.message_id text markup)

abbrev pub answer_query : Bot → CallbackQuery → Option Text → Program (Unit {0})
answer_query bot callback notice = perform bot (answer_callback_query callback.id notice)

-- `user.username if user.username else …`, of the username that is not empty.
abbrev pub shown_username : Option Text → Text
shown_username none = codes "не указан"
shown_username (some username) = username
