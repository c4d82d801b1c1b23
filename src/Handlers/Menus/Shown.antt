-- ===== src/Handlers/Menus/Shown.antt =====
-- The menus of app/handlers.py, and the database.
use telegram_subscription_ma.Base.{ℕ, Bool, Option, none, some, List, [], ◌∷◌, ◌≡◌, refl, arith}
use telegram_subscription_ma.Base.Int.{ℤ}
use telegram_subscription_ma.Base.Text.{Text}
use telegram_subscription_ma.Db.Models.{User, Subscription}
use telegram_subscription_ma.Db.Users.{get_by_telegram_id}
use telegram_subscription_ma.Db.Subscriptions.{get_active_or_expiring_for_user}
use telegram_subscription_ma.Telegram.{Bot, in_db, perform}
use telegram_subscription_ma.Telegram.ReadOnly.{IsReadOnly, bind-IsReadOnly}
use telegram_subscription_ma.Services.StripeService.{Stripe}
use telegram_subscription_ma.Handlers.Chat.{Message, CallbackQuery, Chat}
use telegram_subscription_ma.Handlers.Menus.{
  MediaKind, cmd_start, cmd_help, show_inside_info_callback, media_call, find_example_media,
  send_examples, show_items, show_examples, show_payment, live_of, live_subscription,
  show_subscription, show_my_subscription, stripe_checkout, pay_now, request_screenshot,
  wrong_screenshot_format, ask_question, back_to_main_menu,
}

pub cmd_start-IsReadOnly : (bot : Bot) (message : Message) → IsReadOnly (cmd_start bot message)
unfolding cmd_start
cmd_start-IsReadOnly bot message w = ground arith

pub cmd_help-IsReadOnly : (bot : Bot) (message : Message) → IsReadOnly (cmd_help bot message)
unfolding cmd_help
cmd_help-IsReadOnly bot message w = ground arith

pub wrong_screenshot_format-IsReadOnly :
    (bot : Bot) (message : Message) → IsReadOnly (wrong_screenshot_format bot message)
unfolding wrong_screenshot_format
wrong_screenshot_format-IsReadOnly bot message w = ground arith

pub show_inside_info_callback-IsReadOnly :
    (bot : Bot) (callback : CallbackQuery) → IsReadOnly (show_inside_info_callback bot callback)
unfolding show_inside_info_callback
show_inside_info_callback-IsReadOnly bot callback w = ground arith

pub pay_now-IsReadOnly : (bot : Bot) (callback : CallbackQuery) → IsReadOnly (pay_now bot callback)
unfolding pay_now
pay_now-IsReadOnly bot callback w = ground arith

send_examples-IsReadOnly :
    (bot : Bot) (chat : ℤ) (items : List (MediaKind × Text))
    → IsReadOnly (send_examples bot chat items)
unfolding send_examples
send_examples-IsReadOnly bot chat [] = λ w. refl
send_examples-IsReadOnly bot chat (item ∷ []) = λ w. refl
send_examples-IsReadOnly bot chat (item ∷ next ∷ items) =
    bind-IsReadOnly (perform bot (media_call chat item []))
      (λ _. send_examples bot chat (next ∷ items)) (λ w. refl)
      (λ _. send_examples-IsReadOnly bot chat (next ∷ items))

show_items-IsReadOnly :
    (bot : Bot) (callback : CallbackQuery) (items : List (MediaKind × Text))
    → IsReadOnly (show_items bot callback items)
unfolding show_items
show_items-IsReadOnly bot callback [] = λ w. ground arith
show_items-IsReadOnly bot callback (item ∷ items) =
    let sent = send_examples-IsReadOnly bot callback.message.chat (item ∷ items) in
    λ w. ground (arith, sent w)

pub show_examples-IsReadOnly :
    (is_file : Text → Bool) (bot : Bot) (callback : CallbackQuery)
    → IsReadOnly (show_examples is_file bot callback)
unfolding show_examples find_example_media
show_examples-IsReadOnly is_file bot callback =
    show_items-IsReadOnly bot callback (find_example_media is_file)

pub show_payment-IsReadOnly :
    (local_now : ℕ) (bot : Bot) (callback : CallbackQuery)
    → IsReadOnly (show_payment local_now bot callback)
unfolding show_payment
show_payment-IsReadOnly local_now bot callback w = ground arith

pub stripe_checkout-IsReadOnly :
    (stripe : Stripe) (bot_username : Text) (local_now : ℕ) (bot : Bot) (callback : CallbackQuery)
    → IsReadOnly (stripe_checkout stripe bot_username local_now bot callback)
unfolding stripe_checkout
stripe_checkout-IsReadOnly stripe bot_username local_now bot callback w = ground arith

found-IsReadOnly : (t : ℤ) → IsReadOnly (in_db (get_by_telegram_id t))
unfolding get_by_telegram_id
found-IsReadOnly t w = ground arith

live_of-IsReadOnly : (u : Option User) → IsReadOnly (live_of u)
unfolding live_of get_active_or_expiring_for_user
live_of-IsReadOnly none w = refl
live_of-IsReadOnly (some u) w = refl

pub live_subscription-IsReadOnly : (t : ℤ) → IsReadOnly (live_subscription t)
unfolding live_subscription
live_subscription-IsReadOnly t =
    bind-IsReadOnly (in_db (get_by_telegram_id t)) live_of (found-IsReadOnly t) live_of-IsReadOnly

show_subscription-IsReadOnly :
    (now : ℕ) (bot : Bot) (callback : CallbackQuery) (s : Option Subscription)
    → IsReadOnly (show_subscription now bot callback s)
unfolding show_subscription
show_subscription-IsReadOnly now bot callback s w = ground arith

pub show_my_subscription-IsReadOnly :
    (now : ℕ) (bot : Bot) (callback : CallbackQuery)
    → IsReadOnly (show_my_subscription now bot callback)
unfolding show_my_subscription
show_my_subscription-IsReadOnly now bot callback =
    bind-IsReadOnly (live_subscription callback.from_user.id) (show_subscription now bot callback)
      (live_subscription-IsReadOnly callback.from_user.id)
      (show_subscription-IsReadOnly now bot callback)

-- The three that change the state of the conversation.
pub request_screenshot-same :
    (bot : Bot) (callback : CallbackQuery) (c : Chat)
    → (request_screenshot bot callback c).1.world.database ≡ c.world.database
unfolding request_screenshot
request_screenshot-same bot callback c = ground arith

pub ask_question-same :
    (bot : Bot) (callback : CallbackQuery) (c : Chat)
    → (ask_question bot callback c).1.world.database ≡ c.world.database
unfolding ask_question
ask_question-same bot callback c = ground arith

pub back_to_main_menu-same :
    (bot : Bot) (callback : CallbackQuery) (c : Chat)
    → (back_to_main_menu bot callback c).1.world.database ≡ c.world.database
unfolding back_to_main_menu
back_to_main_menu-same bot callback c = ground arith
