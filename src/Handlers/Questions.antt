-- ===== src/Handlers/Questions.antt =====
-- Questions to the admin in app/handlers.py.
pub mod Limited
use telegram_subscription_ma.Base.{ℕ, Option, none, some, ◌++◌, ltb, if◌then◌else◌}
use telegram_subscription_ma.Base.Text.{Text, codes}
use telegram_subscription_ma.Base.Numerals.{str_nat, str_int}
use telegram_subscription_ma.Base.Action.{pure, ◌>>=◌, ◌>>◌}
use telegram_subscription_ma.Db.Models.{User}
use telegram_subscription_ma.Db.Users
use telegram_subscription_ma.Domain.RateLimit.{
  question_cooldown, minutes_until_allowed, pluralize_minutes_ru,
}
use telegram_subscription_ma.Telegram.{send_message, Bot, Settings, in_db, call, truthy}
use telegram_subscription_ma.Keyboards.{main_menu}
use telegram_subscription_ma.Handlers.Chat.{
  Message, Handler, in_world, clear, answer_with, shown_username,
}

-- A message without a text is formatted as None.
abbrev shown_text : Option Text → Text
shown_text none = codes "None"
shown_text (some text) = text

abbrev pub too_soon_text : ℕ → Text
too_soon_text minutes_left =
    codes
      "Ты уже отправил(а) вопрос недавно — Ирина ответит в ближайшее время 💫\n\nСледующий вопрос можно будет отправить через "
    ++ str_nat minutes_left
    ++ codes " "
    ++ pluralize_minutes_ru minutes_left
    ++ codes "."

abbrev pub admin_message : Message → Text
admin_message message =
    let user = message.from_user in
    codes "💬 Новый вопрос!\n\n👤 От: "
    ++ user.full_name
    ++ codes "\n🆔 ID: "
    ++ str_int user.id
    ++ codes "\n📱 Username: @"
    ++ shown_username (truthy user.username)
    ++ codes "\n\n❓ Вопрос:\n"
    ++ shown_text message.text

abbrev pub thanks_text : Text
thanks_text =
    codes "✅ Спасибо за вопрос! Ирина получила твоё сообщение и ответит в ближайшее время 💌"

unfoldable pub refuse_question : Bot → Message → ℕ → Handler (Unit {0})
refuse_question bot message minutes_left =
    in_world (answer_with bot message (too_soon_text minutes_left) main_menu) >> clear

unfoldable pub thank : Bot → Message → Handler (Unit {0})
thank bot message = in_world (answer_with bot message thanks_text main_menu) >> clear

-- An exception of the first call is caught. `sent_at` is the second `utcnow()`.
unfoldable pub forward_question : Settings → Bot → ℕ → Message → User → Handler (Unit {0})
forward_question settings bot sent_at message db_user = do
  sent ← in_world (
      call (send_message settings.admin_id (admin_message message))
        (λ h. bot.delivers h settings.admin_id (admin_message message)))
  user ← in_world (in_db (Users.set_last_question_at db_user.id sent_at))
  thank bot message

-- From the count of minutes on.
unfoldable pub unless_too_soon : Settings → Bot → ℕ → ℕ → Message → User → Handler (Unit {0})
unless_too_soon settings bot now sent_at message db_user =
    let minutes_left = minutes_until_allowed now db_user.last_question_at question_cooldown in
    if ltb 0 minutes_left
    then refuse_question bot message minutes_left
    else forward_question settings bot sent_at message db_user

unfoldable pub receive_question : Settings → Bot → ℕ → ℕ → Message → Handler (Unit {0})
receive_question settings bot now sent_at message =
    in_world (in_db (Users.get_or_create now message.from_user.id))
    >>= unless_too_soon settings bot now sent_at message
