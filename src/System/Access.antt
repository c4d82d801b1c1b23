-- ===== src/System/Access.antt =====
-- Who may open access to the channel through app/handlers.py.
use telegram_subscription_ma.Base.{◌≡◌, refl, false, List, arith, where_rows}
use telegram_subscription_ma.Base.Int.{ℤ, int_eq}
use telegram_subscription_ma.Db.Models.{Subscription, Database}
use telegram_subscription_ma.Db.Users
use telegram_subscription_ma.Db.Subscriptions
use telegram_subscription_ma.Db.Subscriptions.{is_live}
use telegram_subscription_ma.Db.Payments
use telegram_subscription_ma.Handlers.Chat.{Chat}
use telegram_subscription_ma.Handlers.AdminCommands.{admin_activate}
use telegram_subscription_ma.Handlers.Screenshots.{confirm_payment}
use telegram_subscription_ma.Handlers.Router.{
  Surroundings, Update, message, callback_query, dispatch,
}
use telegram_subscription_ma.System.Clients.{IsKeptByClients}
use telegram_subscription_ma.System.Dispatch.{IsKeptByAdmin, dispatch-Keeps}

-- The rows that give access.
abbrev pub live : Database → List Subscription
live db = where_rows is_live db.subscriptions

abbrev HasLive : List Subscription → Database → Type 0
HasLive rows db = live db ≡ rows

live-IsKeptByClients : (rows : List Subscription) → IsKeptByClients (HasLive rows)
unfolding Users.get_or_create Users.insert_user Users.get_by_telegram_id Subscriptions.create
    Payments.create Users.set_last_question_at
live-IsKeptByClients rows = record {
  by_register = λ now t db h. ground (arith, h);
  by_place = λ now user_id db h. ground (arith, h);
  by_payment = λ now id provider provider_ref amount currency db h. ground (arith, h);
  by_question = λ id moment db h. ground (arith, h);
}

-- The sender of an update.
abbrev pub sender_id : Update → ℤ
sender_id (message m command) = m.from_user.id
sender_id (callback_query callback) = callback.from_user.id

stranger-IsKeptByAdmin :
    (rows : List Subscription) (env : Surroundings) (update : Update)
    → int_eq (sender_id update) env.settings.admin_id ≡ false
    → IsKeptByAdmin (HasLive rows) (live-IsKeptByClients rows) env update
unfolding admin_activate confirm_payment
stranger-IsKeptByAdmin rows env (message m command) other = λ w h. rw other h
stranger-IsKeptByAdmin rows env (callback_query callback) other = λ w h. rw other h

-- Whatever anyone but the admin sends, in whatever state of the conversation and on whatever database,
-- no subscription becomes live, is extended or is lost by it: the live rows are as they were, each
-- with its expiry.
pub dispatch-live :
    (env : Surroundings) (update : Update) (c : Chat)
    → int_eq (sender_id update) env.settings.admin_id ≡ false
    → live (dispatch env update c).1.world.database ≡ live c.world.database
dispatch-live env update c other =
    let rows = live c.world.database in
    dispatch-Keeps (HasLive rows) (live-IsKeptByClients rows) env update
      (stranger-IsKeptByAdmin rows env update other) c refl
