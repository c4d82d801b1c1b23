-- ===== src/Tests/Bot.antt =====
-- The theorems about the conversations of app/handlers.py at concrete inputs.
use telegram_subscription_ma.Base.{
  ◌+◌, ◌≡◌, refl, true, false, none, some, [], ◌∷◌, arith, order_by,
}
use telegram_subscription_ma.Base.Int.{pos}
use telegram_subscription_ma.Base.Text.{codes}
use telegram_subscription_ma.Base.Action.{ok}
use telegram_subscription_ma.Base.Numerals.{str_nat, str_int, int_of}
use telegram_subscription_ma.Db.Models.{Subscription, Database}
use telegram_subscription_ma.Db.Users
use telegram_subscription_ma.Db.Subscriptions
use telegram_subscription_ma.Db.Payments
use telegram_subscription_ma.Db.Invariant.{IsValid}
use telegram_subscription_ma.Domain.RateLimit.{question_cooldown, minutes_until_allowed}
use telegram_subscription_ma.Services.PaymentService.{settle, activate, confirm_manual_payment}
use telegram_subscription_ma.Services.PaymentService.Settlement.{Confirmed}
use telegram_subscription_ma.Telegram.{send_message, send_menu, send_photo, answer_callback_query}
use telegram_subscription_ma.Keyboards.{main_menu, confirm_data, get_confirm_payment_keyboard}
use telegram_subscription_ma.Handlers.Chat.{
  TelegramUser, Message, CallbackQuery, waiting_for_question, waiting_for_screenshot, Chat,
}
use telegram_subscription_ma.Handlers.Questions.{
  too_soon_text, admin_message, thanks_text, receive_question, unless_too_soon, forward_question,
  thank,
}
use telegram_subscription_ma.Handlers.Questions.Limited.{question_limited}
use telegram_subscription_ma.Handlers.Screenshots.{
  payment_caption, thanks_for_screenshot, already_handled, receive_screenshot, confirm_payment,
}
use telegram_subscription_ma.Handlers.ManualPayment.Recorded.{IsOwnedBy}
use telegram_subscription_ma.Handlers.Screenshots.Pressed.{
  confirm_payment_twice, receive_screenshot-confirm_payment,
}
use telegram_subscription_ma.Handlers.AdminCommands.{admin_invite, no_live_subscription}
use telegram_subscription_ma.Handlers.AdminCommands.Invitations.{admin_invite_refused}
use telegram_subscription_ma.Handlers.Targets.{telegram_id_of}
use telegram_subscription_ma.Base.Numerals.{strip}
use telegram_subscription_ma.Handlers.Router.{
  Surroundings, message, callback_query, first_match, dispatch,
}
use telegram_subscription_ma.Handlers.Router.Conversations.{question_ends}
use telegram_subscription_ma.System.Access.{live, dispatch-live}
use telegram_subscription_ma.Tests.Data.{noon, day_length, shop, shop-IsValid}
use telegram_subscription_ma.Tests.Jobs.{obliging, live_settings, quiet_world}

abbrev anna_there : TelegramUser
anna_there = record { id = pos 101; full_name = codes "Anna"; username = some (codes "anna") }

abbrev irina : TelegramUser
irina = record { id = pos 1; full_name = codes "Irina"; username = none }

abbrev pub question : Message
question = record {
  chat = pos 101;
  message_id = 7;
  from_user = anna_there;
  text = some (codes "When?");
  caption = none;
  photo = none;
  document = none;
  has_video = false;
  reply_to_message = none;
}

abbrev screenshot : Message
screenshot = record question { text = none; photo = some (codes "AgAD") }

abbrev command : Message
command = record question { chat = pos 1; from_user = irina }

abbrev press : CallbackQuery
press = record { id = codes "4"; from_user = irina; sent_data = confirm_data 2; message = command }

abbrev pub asking : Chat
asking = record { world = quiet_world; state = some waiting_for_question }

abbrev sending : Chat
sending = record { world = quiet_world; state = some waiting_for_screenshot }

abbrev pub around : Surroundings
around = record {
  settings = live_settings;
  bot = obliging;
  bot_username = codes "dresscode_bot";
  stripe = λ request. ok (codes "https://checkout.stripe.com/c/pay/cs_1");
  is_file = λ path. true;
  now = noon;
  sent_at = noon + 1;
  local_now = noon;
  uuid4 = codes "6f1c";
  exc = codes "Forbidden";
}

question_limited_example :
    let w' = (receive_question live_settings obliging noon (noon + 1) question asking).1.world in
    let minutes = minutes_until_allowed (noon + 60_000_000) (some (noon + 1)) question_cooldown in
    (w'.calls
      ≡ send_menu (pos 101) thanks_text main_menu
        ∷ send_message (pos 1) (admin_message question)
        ∷ [])
    × IsValid w'.database
    × ((receive_question live_settings obliging
          (noon + 60_000_000)
          (noon + 60_000_001)
          question
          (record { world = w'; state = some waiting_for_question })).1.world
        ≡ record w' { calls = send_menu (pos 101) (too_soon_text minutes) main_menu ∷ w'.calls })
unfolding minutes_until_allowed
question_limited_example =
    question_limited live_settings obliging noon (noon + 1) question asking (noon + 60_000_000)
      (noon + 60_000_001) question (some waiting_for_question) shop-IsValid refl refl refl
      (omega arith)

receive_screenshot-confirm_payment_example :
    let w' = (receive_screenshot live_settings obliging noon noon screenshot sending).1.world in
    (p : Subscription) × (w'.calls
      ≡ send_menu (pos 101) thanks_for_screenshot main_menu
        ∷ send_photo
            (pos 1)
            (codes "AgAD")
            (payment_caption screenshot)
            (get_confirm_payment_keyboard p.id)
        ∷ [])
    × IsValid w'.database
    × IsOwnedBy (pos 101) p w'.database
    × ((s : Subscription) × (db'' : Database) × Confirmed (noon + day_length) p w'.database s db''
        × ((confirm_payment live_settings obliging
              (noon + day_length)
              (record press { sent_data = confirm_data p.id })
              w').1.database
            ≡ db''))
unfolding str_int str_nat
receive_screenshot-confirm_payment_example =
    receive_screenshot-confirm_payment live_settings obliging noon noon screenshot sending
      (codes "AgAD") obliging (noon + day_length) press refl shop-IsValid refl refl refl

confirmed :
    (s : Subscription) × (db' : Database) × (confirm_manual_payment noon 2 shop ≡ (ok s, db'))
unfolding confirm_manual_payment Subscriptions.get_by_id Payments.get_for_subscription order_by
    Subscriptions.get_active_or_expiring_for_user settle activate Subscriptions.update_status
    Subscriptions.set_last_warning_days_left
confirmed = (_, _, refl)

confirm_payment_twice_example :
    let w' = (confirm_payment live_settings obliging noon press quiet_world).1 in
    (w'.database ≡ confirmed.1)
    × ((confirm_payment live_settings obliging (noon + day_length) press w').1
        ≡ record w' { calls = answer_callback_query (codes "4") (some already_handled) ∷ w'.calls })
confirm_payment_twice_example =
    confirm_payment_twice live_settings obliging noon 2 press quiet_world confirmed.0 confirmed.1
      shop-IsValid refl refl confirmed.2 obliging (noon + day_length) press refl refl

-- Boris has sent a screenshot, which is not confirmed.
named : telegram_id_of (strip (codes " 202")) ≡ ok (some (pos 202))
unfolding telegram_id_of strip int_of
named = refl

admin_invite_refused_example :
    (admin_invite live_settings obliging
      (codes "Forbidden")
      command
      (some (codes " 202"))
      quiet_world).1
    ≡ record quiet_world { calls = send_message (pos 1) (no_live_subscription (pos 202)) ∷ [] }
admin_invite_refused_example =
    admin_invite_refused live_settings obliging (codes "Forbidden") command (some (codes " 202"))
      (pos 202) quiet_world refl named shop-IsValid refl refl

answered : (dispatch around (message question none) asking).0 ≡ ok tt
unfolding dispatch first_match receive_question Users.get_or_create Users.get_by_telegram_id
    Users.scalar_one_or_none unless_too_soon minutes_until_allowed forward_question
    Users.set_last_question_at thank
answered = refl

question_ends_example :
    let c' = (dispatch around (message question none) asking).1 in
    dispatch around (message screenshot none) c' ≡ (ok tt, c')
question_ends_example = question_ends around question asking refl answered around screenshot

-- Anna claims to be the admin.
dispatch-live_example :
    live
      (dispatch around
        (callback_query (record press { from_user = anna_there }))
        sending).1.world.database
    ≡ live shop
dispatch-live_example =
    dispatch-live around (callback_query (record press { from_user = anna_there })) sending refl
