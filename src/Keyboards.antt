-- ===== src/Keyboards.antt =====
-- app/keyboards.py: the inline keyboards. The reply keyboard `main` and `catalog`, which nothing
-- sends, are left out.
use telegram_subscription_ma.Base.{ℕ, [], ◌∷◌, ◌++◌}
use telegram_subscription_ma.Base.Text.{Text, codes}
use telegram_subscription_ma.Base.Numerals.{str_nat}
use telegram_subscription_ma.Domain.Pricing.{get_current_price}
use telegram_subscription_ma.Telegram.{
  InlineKeyboardButton, InlineKeyboardMarkup, callback_data, url,
}

-- A button that sends its data back.
abbrev button : Text → Text → InlineKeyboardButton
button text data_sent = record { text = text; action = callback_data data_sent }

abbrev to_main_menu : InlineKeyboardButton
to_main_menu = button (codes "↩" ++ 0xFE0F ∷ codes " Назад в меню") (codes "main_menu")

abbrev pub main_menu : InlineKeyboardMarkup
main_menu =
    (button (codes "📦 Что внутри") (codes "what_is_inside") ∷ [])
    ∷ (button (codes "💳 Оформить подписку") (codes "payment") ∷ [])
    ∷ (button (codes "📅 Моя подписка") (codes "my_subscription") ∷ [])
    ∷ (button (codes "💬 Задать вопрос Ирине") (codes "ask_question") ∷ [])
    ∷ []

abbrev pub inside_menu : InlineKeyboardMarkup
inside_menu =
    (button (codes "💳 Оплатить подписку") (codes "payment") ∷ [])
    ∷ (button (codes "👀 Посмотреть примеры контента") (codes "examples") ∷ [])
    ∷ (to_main_menu ∷ [])
    ∷ []

unfoldable pub get_payment_menu : ℕ → InlineKeyboardMarkup
get_payment_menu local_now =
    let price = get_current_price local_now in
    (button (codes "💳 Оплатить картой / BLIK (" ++ str_nat price ++ codes " zł)")
        (codes "stripe_checkout")
      ∷ [])
    ∷ (button (codes "📩 Отправить скрин оплаты") (codes "send_screenshot") ∷ [])
    ∷ (to_main_menu ∷ [])
    ∷ []

abbrev pub renewal_reminder_menu : InlineKeyboardMarkup
renewal_reminder_menu = (button (codes "💳 Оформить подписку") (codes "payment") ∷ []) ∷ []

abbrev pub get_stripe_checkout_keyboard : Text → InlineKeyboardMarkup
get_stripe_checkout_keyboard checkout_url =
    (record { text = codes "💳 Перейти к оплате"; action = url checkout_url } ∷ [])
    ∷ (to_main_menu ∷ [])
    ∷ []

-- The data of the confirm button.
abbrev pub confirm_data : ℕ → Text
confirm_data subscription_id = codes "confirm_payment:" ++ str_nat subscription_id

abbrev pub get_confirm_payment_keyboard : ℕ → InlineKeyboardMarkup
get_confirm_payment_keyboard subscription_id =
    (button (codes "✅ Confirm payment") (confirm_data subscription_id) ∷ []) ∷ []

abbrev pub back_menu : InlineKeyboardMarkup
back_menu = (to_main_menu ∷ []) ∷ []

abbrev pub cancel_menu : InlineKeyboardMarkup
cancel_menu = (button (codes "❌ Отменить") (codes "main_menu") ∷ []) ∷ []
