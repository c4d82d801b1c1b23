-- ===== src/System/Dispatch.antt =====
-- One update of the bot, through the router.
use telegram_subscription_ma.Base.{List, [], ◌∷◌, All, Option, sym, subst}
use telegram_subscription_ma.Base.Text.{Text}
use telegram_subscription_ma.Base.Action.Keeps.{Keeps, Keeps-if}
use telegram_subscription_ma.Db.Models.{Database}
use telegram_subscription_ma.Telegram.{Program}
use telegram_subscription_ma.Telegram.ReadOnly.{IsReadOnly}
use telegram_subscription_ma.Handlers.Chat.{Message, CallbackQuery, Waiting, Chat, in_world}
use telegram_subscription_ma.Handlers.Menus.{
  cmd_start, cmd_help, show_inside_info_callback, show_examples, show_payment, show_my_subscription,
  stripe_checkout, pay_now, wrong_screenshot_format,
}
use telegram_subscription_ma.Handlers.Menus.Shown.{
  cmd_start-IsReadOnly, cmd_help-IsReadOnly, show_inside_info_callback-IsReadOnly,
  show_examples-IsReadOnly, show_payment-IsReadOnly, show_my_subscription-IsReadOnly,
  stripe_checkout-IsReadOnly, pay_now-IsReadOnly, wrong_screenshot_format-IsReadOnly,
  request_screenshot-same, ask_question-same, back_to_main_menu-same,
}
use telegram_subscription_ma.Handlers.AdminCommands.{admin_activate, admin_invite}
use telegram_subscription_ma.Handlers.AdminCommands.Permissions.{admin_invite-IsReadOnly}
use telegram_subscription_ma.Handlers.Subscribers.{admin_subscribers}
use telegram_subscription_ma.Handlers.Subscribers.Report.{admin_subscribers-IsReadOnly}
use telegram_subscription_ma.Handlers.Router.{
  Surroundings, Update, message, callback_query, Route, first_match, args_of, message_routes,
  callback_routes, dispatch,
}
use telegram_subscription_ma.System.{Reach, here}
use telegram_subscription_ma.Handlers.Screenshots.{confirm_payment}
use telegram_subscription_ma.System.Clients.{
  IsKeptByClients, OnWorld, OnChat, receive_screenshot-Keeps, receive_question-Keeps,
}
use telegram_subscription_ma.System.Handlers.{
  Reach-IsKeptByClients, admin_activate-Keeps, confirm_payment-Keeps,
}

module _ (P : Database → Type 0) (kept : IsKeptByClients P) (env : Surroundings) where
  reading-Keeps : (p : Program (Unit {0})) → IsReadOnly p → Keeps (OnChat P) (in_world p)
  reading-Keeps p same c h = subst P (sym (same c.world)) h

  first_match-Keeps :
      (routes : List Route)
      → All (λ r. Keeps (OnChat P) r.1) routes
      → Keeps (OnChat P) (first_match routes)
  unfolding first_match
  first_match-Keeps [] h = λ c k. k
  first_match-Keeps ((passes, handler) ∷ routes) h =
      Keeps-if (OnChat P) passes handler (first_match routes) h.0 (first_match-Keeps routes h.1)

  message_routes-Keeps :
      (m : Message) (command : Option (Text × Option Text)) (state : Option Waiting)
      → Keeps
          (OnWorld P)
          (admin_activate env.settings env.bot env.now env.local_now env.uuid4 m (args_of command))
      → All (λ r. Keeps (OnChat P) r.1) (message_routes env m command state)
  message_routes-Keeps m command state activation =
      let b = env.bot in
      let s = env.settings in
      let args = args_of command in
      (
        reading-Keeps (cmd_start b m) (cmd_start-IsReadOnly b m),
        (
          reading-Keeps (cmd_help b m) (cmd_help-IsReadOnly b m),
          (
            receive_screenshot-Keeps P kept s b env.now env.local_now m,
            (
              (λ c. activation c.world),
              (
                reading-Keeps (admin_subscribers s b m) (admin_subscribers-IsReadOnly b s m),
                (
                  reading-Keeps (admin_invite s b env.exc m args)
                      (admin_invite-IsReadOnly s b m env.exc args),
                  (
                    reading-Keeps (wrong_screenshot_format b m)
                        (wrong_screenshot_format-IsReadOnly b m),
                    (receive_question-Keeps P kept s b env.now env.sent_at m, tt),
                  ),
                ),
              ),
            ),
          ),
        ),
      )

  callback_routes-Keeps :
      (callback : CallbackQuery)
      → Keeps (OnWorld P) (confirm_payment env.settings env.bot env.now callback)
      → All (λ r. Keeps (OnChat P) r.1) (callback_routes env callback)
  callback_routes-Keeps callback confirmation =
      let b = env.bot in
      (
        reading-Keeps (show_inside_info_callback b callback)
            (show_inside_info_callback-IsReadOnly b callback),
        (
          reading-Keeps (show_examples env.is_file b callback)
              (show_examples-IsReadOnly env.is_file b callback),
          (
            reading-Keeps (show_payment env.local_now b callback)
                (show_payment-IsReadOnly env.local_now b callback),
            (
              reading-Keeps (show_my_subscription env.now b callback)
                  (show_my_subscription-IsReadOnly env.now b callback),
              (
                reading-Keeps (stripe_checkout env.stripe env.bot_username env.local_now b callback)
                    (stripe_checkout-IsReadOnly env.stripe env.bot_username env.local_now b
                      callback),
                (
                  reading-Keeps (pay_now b callback) (pay_now-IsReadOnly b callback),
                  (
                    (λ c h. subst P (sym (request_screenshot-same b callback c)) h),
                    (
                      (λ c. confirmation c.world),
                      (
                        (λ c h. subst P (sym (ask_question-same b callback c)) h),
                        ((λ c h. subst P (sym (back_to_main_menu-same b callback c)) h), tt),
                      ),
                    ),
                  ),
                ),
              ),
            ),
          ),
        ),
      )

  -- What the admin's two writing commands have to keep of an update.
  abbrev pub IsKeptByAdmin : Update → Type 0
  IsKeptByAdmin (message m command) =
      Keeps (OnWorld P)
        (admin_activate env.settings env.bot env.now env.local_now env.uuid4 m (args_of command))
  IsKeptByAdmin (callback_query callback) =
      Keeps (OnWorld P) (confirm_payment env.settings env.bot env.now callback)

  pub dispatch-Keeps :
      (update : Update) → IsKeptByAdmin update → Keeps (OnChat P) (dispatch env update)
  unfolding dispatch
  dispatch-Keeps (message m command) admin c h =
      first_match-Keeps (message_routes env m command c.state)
        (message_routes-Keeps m command c.state admin) c h
  dispatch-Keeps (callback_query callback) admin c h =
      first_match-Keeps (callback_routes env callback) (callback_routes-Keeps callback admin) c h

admin-Reach :
    (env : Surroundings) (db : Database) (update : Update)
    → IsKeptByAdmin (Reach db) (Reach-IsKeptByClients db) env update
admin-Reach env db (message m command) =
    admin_activate-Keeps db env.settings env.bot env.now env.local_now env.uuid4 m (args_of command)
admin-Reach env db (callback_query callback) =
    confirm_payment-Keeps db env.settings env.bot env.now callback

-- Whatever update arrives, from whomever, in whatever state of the conversation, all that its
-- handler does to the database is a sequence of the transactions of System, whether the
-- handler returns or raises.
pub dispatch-Reach :
    (env : Surroundings) (update : Update) (c : Chat)
    → Reach c.world.database (dispatch env update c).1.world.database
dispatch-Reach env update c =
    let db = c.world.database in
    dispatch-Keeps (Reach db) (Reach-IsKeptByClients db) env update (admin-Reach env db update) c
      here
