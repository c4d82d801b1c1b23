-- ===== src/Handlers/Router.antt =====
-- The router of app/handlers.py: which handler an update goes to. Handlers are tried in the order in
-- which they are registered, and the first whose filters pass takes the update.
pub mod Conversations
use telegram_subscription_ma.Base.{
  ℕ, Bool, true, false, ◌&&◌, ◌||◌, ◌==◌, Option, none, some, List, [], ◌∷◌, if◌then◌else◌, is_some,
}
use telegram_subscription_ma.Base.Text.{Text, codes, text_eq}
use telegram_subscription_ma.Base.Action.{pure, gets, ◌>>=◌}
use telegram_subscription_ma.Telegram.{Bot, Settings}
use telegram_subscription_ma.Services.StripeService.{Stripe}
use telegram_subscription_ma.Handlers.Chat.{
  Message, CallbackQuery, Waiting, waiting_for_question, waiting_for_screenshot, Handler, in_world,
}
use telegram_subscription_ma.Handlers.Menus.{
  cmd_start, cmd_help, show_inside_info_callback, show_examples, show_payment, show_my_subscription,
  stripe_checkout, pay_now, request_screenshot, wrong_screenshot_format, ask_question,
  back_to_main_menu,
}
use telegram_subscription_ma.Handlers.Questions.{receive_question}
use telegram_subscription_ma.Handlers.Screenshots.{receive_screenshot, confirm_payment}
use telegram_subscription_ma.Handlers.AdminCommands.{admin_activate, admin_invite}
use telegram_subscription_ma.Handlers.Subscribers.{admin_subscribers}

-- What a handler finds around it: the settings, the services, the files, two readings of `utcnow()`, the local
-- time, a fresh uuid, and what the exception of a refused message says.
pub record Surroundings : Type 0 where
  pub settings : Settings
  pub bot : Bot
  pub bot_username : Text
  pub stripe : Stripe
  pub is_file : Text → Bool
  pub now : ℕ
  pub sent_at : ℕ
  pub local_now : ℕ
  pub uuid4 : Text
  pub exc : Text

-- The command of a message and its arguments are what aiogram's filter finds in it.
pub data Update : Type 0 where
  message : Message → Option (Text × Option Text) → Update
  callback_query : CallbackQuery → Update

abbrev pub starts_with : Text → Text → Bool
starts_with [] s = true
starts_with (c ∷ t) [] = false
starts_with (c ∷ t) (d ∷ s) = (c == d) && starts_with t s

-- `F.photo | F.document.mime_type.startswith("image/")`
abbrev is_image : Option (Text × Option Text) → Bool
is_image (some (file_id, some mime_type)) = starts_with (codes "image/") mime_type
is_image _ = false

abbrev pub is_picture : Message → Bool
is_picture m = is_some m.photo || is_image m.document

abbrev pub is_command : Text → Option (Text × Option Text) → Bool
is_command name none = false
is_command name (some (command, args)) = text_eq command name

abbrev pub args_of : Option (Text × Option Text) → Option Text
args_of none = none
args_of (some (command, args)) = args

-- The handlers of a conversation that waits for something.
abbrev pub waits_for_screenshot : Option Waiting → Bool
waits_for_screenshot (some waiting_for_screenshot) = true
waits_for_screenshot _ = false

abbrev pub waits_for_question : Option Waiting → Bool
waits_for_question (some waiting_for_question) = true
waits_for_question _ = false

-- A handler with what its filters say of the update.
abbrev pub Route : Type 0
Route = Bool × Handler (Unit {0})

-- An update that no handler takes is dropped.
unfoldable pub first_match : List Route → Handler (Unit {0})
first_match [] = pure tt
first_match ((passes, handler) ∷ routes) =
    let rest = first_match routes in if passes then handler else rest

module _ (env : Surroundings) where
  abbrev pub message_routes : Message → Option (Text × Option Text) → Option Waiting → List Route
  message_routes m command state =
      let b = env.bot in
      let s = env.settings in
      (is_command (codes "start") command, in_world (cmd_start b m))
      ∷ (is_command (codes "help") command, in_world (cmd_help b m))
      ∷ (waits_for_screenshot state && is_picture m, receive_screenshot s b env.now env.local_now m)
      ∷ (
        is_command (codes "activate") command,
        in_world (admin_activate s b env.now env.local_now env.uuid4 m (args_of command)),
      )
      ∷ (is_command (codes "subscribers") command, in_world (admin_subscribers s b m))
      ∷ (
        is_command (codes "invite") command,
        in_world (admin_invite s b env.exc m (args_of command)),
      )
      ∷ (waits_for_screenshot state, in_world (wrong_screenshot_format b m))
      ∷ (waits_for_question state, receive_question s b env.now env.sent_at m)
      ∷ []

  abbrev pub callback_routes : CallbackQuery → List Route
  callback_routes callback =
      let b = env.bot in
      let sent = callback.sent_data in
      (text_eq sent (codes "what_is_inside"), in_world (show_inside_info_callback b callback))
      ∷ (text_eq sent (codes "examples"), in_world (show_examples env.is_file b callback))
      ∷ (text_eq sent (codes "payment"), in_world (show_payment env.local_now b callback))
      ∷ (text_eq sent (codes "my_subscription"), in_world (show_my_subscription env.now b callback))
      ∷ (
        text_eq sent (codes "stripe_checkout"),
        in_world (stripe_checkout env.stripe env.bot_username env.local_now b callback),
      )
      ∷ (text_eq sent (codes "pay_now"), in_world (pay_now b callback))
      ∷ (text_eq sent (codes "send_screenshot"), request_screenshot b callback)
      ∷ (
        starts_with (codes "confirm_payment:") sent,
        in_world (confirm_payment env.settings b env.now callback),
      )
      ∷ (text_eq sent (codes "ask_question"), ask_question b callback)
      ∷ (text_eq sent (codes "main_menu"), back_to_main_menu b callback)
      ∷ []

  -- One update, in the conversation with its sender.
  unfoldable pub dispatch : Update → Handler (Unit {0})
  dispatch (message m command) =
      gets (λ c. c.state) >>= λ state. first_match (message_routes m command state)
  dispatch (callback_query callback) = first_match (callback_routes callback)
