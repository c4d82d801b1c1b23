-- ===== src/Handlers/Screenshots.antt =====
-- Payment by screenshot in app/handlers.py, from the client's picture to the admin's button.
pub mod Pressed
use telegram_subscription_ma.Base.{ℕ, Option, none, some, [], ◌++◌, not, if◌then◌else◌}
use telegram_subscription_ma.Base.Int.{ℤ, pos, negsuc, int_eq}
use telegram_subscription_ma.Base.Text.{Text, codes}
use telegram_subscription_ma.Base.Numerals.{str_int}
use telegram_subscription_ma.Base.Action.{pure, raise, lift, catch, ◌>>=◌, ◌>>◌}
use telegram_subscription_ma.Db.Models.{User, Subscription}
use telegram_subscription_ma.Db.Exceptions.{Exception, invalid_transition, value_error, Query}
use telegram_subscription_ma.Db.Users
use telegram_subscription_ma.Services.PaymentService.{confirm_manual_payment}
use telegram_subscription_ma.Telegram.{
  send_message, send_photo, send_document, edit_message_caption, Call, Bot, Settings,
  InlineKeyboardMarkup, Program, in_db, call, perform, truthy,
}
use telegram_subscription_ma.Keyboards.{main_menu, get_confirm_payment_keyboard}
use telegram_subscription_ma.Handlers.Chat.{
  Message, CallbackQuery, Handler, in_world, clear, answer_with, answer_query, shown_username,
}
use telegram_subscription_ma.Handlers.ManualPayment.{record_screenshot, subscription_id_of}

abbrev pub payment_caption : Message → Text
payment_caption message =
    let user = message.from_user in
    codes "💳 Новая оплата!\n\n👤 От: "
    ++ user.full_name
    ++ codes "\n🆔 ID: "
    ++ str_int user.id
    ++ codes "\n📱 Username: @"
    ++ shown_username (truthy user.username)

-- A photo goes before a document; with neither, `message.document.file_id` is an AttributeError.
abbrev screenshot_call : ℤ → Message → Text → InlineKeyboardMarkup → Option Call
screenshot_call admin message caption markup = elim message.photo [
  | some file_id ↦ some (send_photo admin file_id caption markup)
  | none ↦ elim message.document [
    | some file ↦ some (send_document admin file.0 caption markup)
    | none ↦ none
  ]
]

-- Whatever is raised here is caught.
unfoldable pub forward_screenshot : Bot → Option Call → Program (Unit {0})
forward_screenshot bot none = pure tt
forward_screenshot bot (some c) = call c (λ h. bot.accepts h c) >> pure tt

abbrev pub thanks_for_screenshot : Text
thanks_for_screenshot =
    codes
      "✅ Спасибо! Твой скриншот отправлен Ирине.\n\nДоступ будет активирован в течение дня. Я пришлю тебе уведомление! 💫"

-- What follows the three writes.
unfoldable pub after_screenshot : Settings → Bot → Message → Subscription → Handler (Unit {0})
after_screenshot settings bot message subscription = do
  in_world (
      forward_screenshot bot (
        screenshot_call settings.admin_id message (payment_caption message)
          (get_confirm_payment_keyboard subscription.id)))
  in_world (answer_with bot message thanks_for_screenshot main_menu)
  clear

unfoldable pub receive_screenshot : Settings → Bot → ℕ → ℕ → Message → Handler (Unit {0})
receive_screenshot settings bot now local_now message =
    in_world (in_db (record_screenshot now local_now message.from_user.id message.message_id))
    >>= after_screenshot settings bot message

-- No row has a negative id.
abbrev pub confirm_id : ℕ → ℤ → Query Subscription
confirm_id now (pos id) = confirm_manual_payment now id
confirm_id now (negsuc n) = raise value_error

abbrev pub already_handled : Text
already_handled = codes "Эта оплата уже обработана."

-- The handler of InvalidTransitionError.
unfoldable pub refuse_confirmation : Bot → CallbackQuery → Exception → Program (Option Subscription)
refuse_confirmation bot callback (invalid_transition from_status to_status) =
    answer_query bot callback (some already_handled) >> pure none
refuse_confirmation bot callback e = raise e

abbrev pub confirmed_text : Text
confirmed_text =
    codes
      "🎉 Твоя оплата подтверждена! Доступ в закрытый клуб активен 30 дней.\n\nИрина добавит тебя в канал в течение дня 💫"

-- An exception of this call is caught.
unfoldable pub tell_subscriber : Bot → Option User → Program (Unit {0})
tell_subscriber bot none = pure tt
tell_subscriber bot (some subscriber) =
    call (send_message subscriber.telegram_id confirmed_text)
      (λ h. bot.delivers h subscriber.telegram_id confirmed_text)
    >> pure tt

abbrev pub caption_or_empty : Option Text → Text
caption_or_empty none = []
caption_or_empty (some caption) = caption

-- What follows a confirmation that was not refused.
unfoldable pub after_confirmation : Bot → CallbackQuery → Option Subscription → Program (Unit {0})
after_confirmation bot callback none = pure tt
after_confirmation bot callback (some subscription) = do
  subscriber ← in_db (Users.get_by_id subscription.user_id)
  tell_subscriber bot subscriber
  perform bot (
      edit_message_caption callback.message.chat callback.message.message_id
        (caption_or_empty callback.message.caption ++ codes "\n\n✅ Оплата подтверждена") [])
  answer_query bot callback (some (codes "Подписка активирована"))

unfoldable pub confirm_as_admin : Bot → ℕ → CallbackQuery → Program (Unit {0})
confirm_as_admin bot now callback = do
  subscription_id ← lift (subscription_id_of callback.sent_data)
  confirmed ←
      catch (in_db (confirm_id now subscription_id) >>= λ subscription. pure (some subscription))
        (refuse_confirmation bot callback)
  after_confirmation bot callback confirmed

unfoldable pub confirm_payment : Settings → Bot → ℕ → CallbackQuery → Program (Unit {0})
confirm_payment settings bot now callback =
    if not (int_eq callback.from_user.id settings.admin_id)
    then answer_query bot callback none
    else confirm_as_admin bot now callback
