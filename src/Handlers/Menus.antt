-- ===== src/Handlers/Menus.antt =====
-- The menus of app/handlers.py, which show something.
pub mod Shown
use telegram_subscription_ma.Base.{
  ℕ, zero, suc, ◌+◌, Bool, Option, none, some, List, [], ◌∷◌, ◌++◌, ◌||◌, if◌then◌else◌, is_some,
}
use telegram_subscription_ma.Base.Int.{ℤ}
use telegram_subscription_ma.Base.Text.{Text, codes}
use telegram_subscription_ma.Base.Numerals.{str_nat}
use telegram_subscription_ma.Base.Action.{Result, ok, err, pure, lift, ◌>>=◌, ◌>>◌}
use telegram_subscription_ma.Db.Models.{expiring, status_eq, User, Subscription}
use telegram_subscription_ma.Db.Exceptions.{Exception, type_error}
use telegram_subscription_ma.Db.Users
use telegram_subscription_ma.Db.Subscriptions
use telegram_subscription_ma.Domain.Time.{days_remaining, format_date_ru, pluralize_days_ru}
use telegram_subscription_ma.Domain.Pricing.{get_current_price}
use telegram_subscription_ma.Telegram.{
  send_photo, send_video, Call, Bot, InlineKeyboardMarkup, Program, in_db, perform, answer,
}
use telegram_subscription_ma.Services.StripeService.{Stripe, create_checkout_session}
use telegram_subscription_ma.Keyboards.{
  main_menu, inside_menu, get_payment_menu, get_stripe_checkout_keyboard, back_menu, cancel_menu,
}
use telegram_subscription_ma.Handlers.Chat.{
  Message, CallbackQuery, waiting_for_question, waiting_for_screenshot, Handler, in_world,
  set_state, clear, answer_with, edit_text, answer_query,
}

abbrev welcome_text : Text
welcome_text =
    codes
      "✨ Привет, я Ирина — персональный стилист и автор канала «Стильный декабрь»\n\nЕсли ты здесь, значит тебе интересна тема формирования личного стиля.\n\nЭтот бот — твой личный проводник в мир стиля, уверенности и вдохновения.\n\nЗдесь ты можешь:\n👗 оформить подписку на закрытый стильный клуб\n💡 узнать, что входит в доступ\n💳 получить инструкцию по оплате\n💬 задать вопрос напрямую\n\nВ закрытом клубе я делюсь:\n— авторскими подборками образов\n— капсульными гардеробами на разные случаи\n— разбором трендов и сочетаний вещей\n— советами, как перестать тратить деньги на \"висящую\" одежду\n\n💌 Нажми кнопку ниже, чтобы узнать, что тебя ждёт внутри 👇"

unfoldable pub cmd_start : Bot → Message → Program (Unit {0})
cmd_start bot message = answer_with bot message welcome_text main_menu

unfoldable pub cmd_help : Bot → Message → Program (Unit {0})
cmd_help bot message = answer bot message.chat (codes "Вы нажали на кнопку помощи")

unfoldable pub show_inside_info_callback : Bot → CallbackQuery → Program (Unit {0})
show_inside_info_callback bot callback =
    edit_text bot callback.message
      (codes
        "📦 В подписке ты получаешь:\n\n💋 Подборки стильных образов — собранные капсулы, идеи нарядов, сочетаемые вещи.\n🌟 Разборы трендов и советы, как адаптировать их под себя.\n🧠 Практические мини-гайды — что купить на распродажах, куда инвестировать, как обновить базу.\n👜 Видео и разборы гардеробов (ежемесячно).\n\nВсё оформлено в лёгком, вдохновляющем формате — так, чтобы стиль стал естественной частью твоей жизни 💫\n\n🔄 Подписка действует 30 дней с момента оплаты — не привязана к числу месяца. Оплатил сегодня — доступ открыт сразу, продлить нужно будет через 30 дней. За 3 дня до окончания бот сам напомнит. Проверить, сколько дней осталось, можно в разделе «📅 Моя подписка».")
      inside_menu
    >> answer_query bot callback none

pub data MediaKind : Type 0 where
  photo video : MediaKind

abbrev example_extensions : List (Text × MediaKind)
example_extensions = (codes ".jpg", photo) ∷ (codes ".mp4", video) ∷ []

abbrev pub example_path : ℕ → Text → Text
example_path index ext = codes "/app/media/examples/example_" ++ str_nat index ++ ext

abbrev find_at : (Text → Bool) → ℕ → List (Text × MediaKind) → List (MediaKind × Text)
find_at is_file index [] = []
find_at is_file index ((ext, kind) ∷ exts) =
    let rest = find_at is_file index exts in
    if is_file (example_path index ext) then (kind, example_path index ext) ∷ rest else rest

abbrev find_from : (Text → Bool) → ℕ → ℕ → List (MediaKind × Text)
find_from is_file index zero = []
find_from is_file index (suc n) =
    find_at is_file index example_extensions ++ find_from is_file (suc index) n

-- `_find_example_media`, where `is_file` says which files there are.
unfoldable pub find_example_media : (Text → Bool) → List (MediaKind × Text)
find_example_media is_file = find_from is_file 1 5

abbrev pub media_call : ℤ → MediaKind × Text → InlineKeyboardMarkup → Call
media_call chat (photo, path) markup = send_photo chat path [] markup
media_call chat (video, path) markup = send_video chat path [] markup

-- The loop, whose last round adds the keyboard.
unfoldable pub send_examples : Bot → ℤ → List (MediaKind × Text) → Program (Unit {0})
send_examples bot chat [] = pure tt
send_examples bot chat (item ∷ []) = perform bot (media_call chat item back_menu)
send_examples bot chat (item ∷ next ∷ items) =
    perform bot (media_call chat item []) >> send_examples bot chat (next ∷ items)

abbrev pub no_examples_text : Text
no_examples_text =
    codes
      "👀 Вот примеры контента из закрытого клуба:\n\n📸 Здесь ты увидишь стильные подборки, разборы образов и капсульные гардеробы\n\n💡 В реальной версии здесь будут фото и видео примеры"

unfoldable pub show_items : Bot → CallbackQuery → List (MediaKind × Text) → Program (Unit {0})
show_items bot callback [] =
    answer_with bot callback.message no_examples_text back_menu
    >> answer_query bot callback (some (codes "Примеры отправлены!"))
show_items bot callback (item ∷ items) =
    send_examples bot callback.message.chat (item ∷ items)
    >> answer_query bot callback (some (codes "Примеры отправлены!"))

unfoldable pub show_examples : (Text → Bool) → Bot → CallbackQuery → Program (Unit {0})
show_examples is_file bot callback = show_items bot callback (find_example_media is_file)

unfoldable pub show_payment : ℕ → Bot → CallbackQuery → Program (Unit {0})
show_payment local_now bot callback =
    let price = get_current_price local_now in
    edit_text bot callback.message
      (codes "💳 Стоимость подписки: "
        ++ str_nat price
        ++ codes
            " zł за 30 дней\n\n⚡ Оплати картой или BLIK — доступ откроется автоматически, в течение минуты после оплаты.\n\n📸 Если способ оплаты не подошёл — можно отправить скрин перевода, и я подтвержу доступ вручную в течение дня.")
      (get_payment_menu local_now)
    >> answer_query bot callback none

abbrev pub no_subscription_text : Text
no_subscription_text =
    codes
      "У тебя пока нет подписки 🌸\n\nЗагляни в раздел «💳 Оформить подписку» в меню, чтобы получить доступ в закрытый клуб."

abbrev pub remaining_text : Subscription → ℕ → Text → Text
remaining_text subscription days date_str =
    let day_word = pluralize_days_ru days in
    if status_eq subscription.status expiring
    then codes "⏳ Твоя подписка скоро закончится — осталось "
      ++ str_nat days
      ++ codes " "
      ++ day_word
      ++ codes " (до "
      ++ date_str
      ++ codes
          ").\n\nПродли доступ через «💳 Оформить подписку», чтобы не потерять место в закрытом клубе 💫"
    else codes "✅ Твоя подписка активна ещё "
      ++ str_nat days
      ++ codes " "
      ++ day_word
      ++ codes " (до "
      ++ date_str
      ++ codes ")."

abbrev expiry_text : ℕ → Subscription → Option ℕ → Result Exception Text
expiry_text now subscription none = err type_error
expiry_text now subscription (some expires_at) = elim (format_date_ru expires_at) [
  | err e ↦ err e
  | ok date_str ↦ ok (remaining_text subscription (days_remaining now expires_at) date_str)
]

-- The text of `show_my_subscription`. Without an expiry the subtraction raises TypeError.
unfoldable pub subscription_text : ℕ → Option Subscription → Result Exception Text
subscription_text now none = ok no_subscription_text
subscription_text now (some subscription) = expiry_text now subscription subscription.expires_at

unfoldable pub live_of : Option User → Program (Option Subscription)
live_of none = pure none
live_of (some db_user) = in_db (Subscriptions.get_active_or_expiring_for_user db_user.id)

-- What /invite and `show_my_subscription` look up.
unfoldable pub live_subscription : ℤ → Program (Option Subscription)
live_subscription telegram_id = in_db (Users.get_by_telegram_id telegram_id) >>= live_of

unfoldable pub show_subscription :
    ℕ → Bot → CallbackQuery → Option Subscription → Program (Unit {0})
show_subscription now bot callback subscription = do
  text ← lift (subscription_text now subscription)
  edit_text bot callback.message text back_menu
  answer_query bot callback none

unfoldable pub show_my_subscription : ℕ → Bot → CallbackQuery → Program (Unit {0})
show_my_subscription now bot callback =
    live_subscription callback.from_user.id >>= show_subscription now bot callback

unfoldable pub stripe_checkout : Stripe → Text → ℕ → Bot → CallbackQuery → Program (Unit {0})
stripe_checkout stripe bot_username local_now bot callback = do
  checkout_url ←
      lift (stripe (create_checkout_session bot_username local_now callback.from_user.id))
  answer_with bot callback.message
      (codes
        "💳 Ссылка на оплату готова — доступны карта и BLIK.\n\nПосле оплаты Ирина активирует твой доступ в течение дня 💫")
      (get_stripe_checkout_keyboard checkout_url)
  answer_query bot callback none

unfoldable pub pay_now : Bot → CallbackQuery → Program (Unit {0})
pay_now bot callback =
    answer_with bot callback.message
      (codes
        "💸 Для оплаты перейди по ссылке:\n\n🔗 [Ссылка на оплату будет здесь]\n\nПосле оплаты обязательно отправь скриншот подтверждения!")
      back_menu
    >> answer_query bot callback none

unfoldable pub request_screenshot : Bot → CallbackQuery → Handler (Unit {0})
request_screenshot bot callback = do
  set_state (some waiting_for_screenshot)
  in_world (
      answer_with bot callback.message
        (codes
          "📸 Отправь скриншот или фото подтверждения оплаты.\n\nЯ перешлю его Ирине, и она активирует твой доступ в течение дня 💫")
        cancel_menu)
  in_world (answer_query bot callback none)

unfoldable pub wrong_screenshot_format : Bot → Message → Program (Unit {0})
wrong_screenshot_format bot message =
    answer_with bot message (codes "❌ Пожалуйста, отправь именно фото или скриншот оплаты.")
      cancel_menu

unfoldable pub ask_question : Bot → CallbackQuery → Handler (Unit {0})
ask_question bot callback = do
  set_state (some waiting_for_question)
  in_world (
      edit_text bot callback.message
        (codes
            "💬 Ты можешь написать мне напрямую — я помогу разобраться с оплатой, доступом или просто расскажу, подходит ли тебе участие 🌸\n\n✉"
          ++ 0xFE0F ∷ codes " Напиши сообщение ниже — я отвечу лично.")
        cancel_menu)
  in_world (answer_query bot callback none)

-- A message with a photo or a video cannot be edited to a text.
unfoldable pub back_to_main_menu : Bot → CallbackQuery → Handler (Unit {0})
back_to_main_menu bot callback = do
  clear
  in_world (
      if is_some callback.message.photo || callback.message.has_video
      then answer_with bot callback.message welcome_text main_menu
      else edit_text bot callback.message welcome_text main_menu)
  in_world (answer_query bot callback none)
