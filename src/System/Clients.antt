-- ===== src/System/Clients.antt =====
-- What the handlers that anyone may call write to the database, and what keeps holding of it then.
use telegram_subscription_ma.Base.{ℕ, none, ◌≡◌, sym, subst, arith, ◌*◌}
use telegram_subscription_ma.Base.Int.{ℤ}
use telegram_subscription_ma.Base.Text.{Text, codes}
use telegram_subscription_ma.Base.Action.{pure, ◌>>=◌}
use telegram_subscription_ma.Base.Action.Keeps.{Keeps, Keeps-bind, Keeps-if}
use telegram_subscription_ma.Db.Models.{pending, User, Subscription, Database}
use telegram_subscription_ma.Db.Users
use telegram_subscription_ma.Db.Subscriptions
use telegram_subscription_ma.Db.Payments
use telegram_subscription_ma.Domain.Pricing.{get_current_price}
use telegram_subscription_ma.Telegram.{Bot, Settings, World, Program, in_db}
use telegram_subscription_ma.Telegram.ReadOnly.{IsReadOnly}
use telegram_subscription_ma.Handlers.Chat.{Message, Chat, in_world}
use telegram_subscription_ma.Handlers.ManualPayment.{manual_ref, record_screenshot}
use telegram_subscription_ma.Handlers.Questions.{
  thank, refuse_question, forward_question, unless_too_soon, receive_question,
}
use telegram_subscription_ma.Handlers.Screenshots.{
  forward_screenshot, after_screenshot, receive_screenshot,
}

-- What the writes of a client's screenshot and of a client's question keep.
pub record IsKeptByClients (P : Database → Type 0) : Type 0 where
  pub by_register : (now : ℕ) (t : ℤ) (db : Database) → P db → P (Users.get_or_create now t db).1
  pub by_place :
      (now user_id : ℕ) (db : Database)
      → P db
      → P (Subscriptions.create now user_id none pending db).1
  pub by_payment :
      (now id : ℕ) (provider provider_ref : Text) (amount : ℕ) (currency : Text) (db : Database)
      → P db
      → P (Payments.create now id provider provider_ref amount currency db).1
  pub by_question :
      (id moment : ℕ) (db : Database) → P db → P (Users.set_last_question_at id moment db).1

module _ (P : Database → Type 0) where
  abbrev pub OnWorld : World → Type 0
  OnWorld w = P w.database

  abbrev pub OnChat : Chat → Type 0
  OnChat c = P c.world.database

  pub reads-Keeps : {A : Type 0} (p : Program A) → IsReadOnly p → Keeps OnWorld p
  reads-Keeps p same w h = subst P (sym (same w)) h

module _ (P : Database → Type 0) (kept : IsKeptByClients P) where
  record_screenshot-Keeps :
      (now local_now : ℕ) (t : ℤ) (message_id : ℕ)
      → Keeps P (record_screenshot now local_now t message_id)
  unfolding record_screenshot
  record_screenshot-Keeps now local_now t message_id =
      let pay = λ (s : Subscription).
        Payments.create now s.id (codes "manual") (manual_ref t message_id)
          (get_current_price local_now * 100) (codes "PLN") in
      Keeps-bind P (Users.get_or_create now t)
        (λ u. Subscriptions.create now u.id none pending >>= λ s. pay s >>= λ payment. pure s)
        (kept.by_register now t)
        λ u.
          Keeps-bind P (Subscriptions.create now u.id none pending)
            (λ s. pay s >>= λ payment. pure s) (kept.by_place now u.id)
            λ s.
              Keeps-bind P (pay s) (λ payment. pure s)
                (kept.by_payment now s.id (codes "manual") (manual_ref t message_id)
                  (get_current_price local_now * 100) (codes "PLN"))
                (λ payment db h. h)

  module _ (settings : Settings) (bot : Bot) where
    after_screenshot-same :
        (message : Message) (s : Subscription) (c : Chat)
        → (after_screenshot settings bot message s c).1.world.database ≡ c.world.database
    unfolding after_screenshot forward_screenshot
    after_screenshot-same message s c = ground arith

    pub receive_screenshot-Keeps :
        (now local_now : ℕ) (message : Message)
        → Keeps (OnChat P) (receive_screenshot settings bot now local_now message)
    unfolding receive_screenshot
    receive_screenshot-Keeps now local_now message =
        let t = message.from_user.id in
        Keeps-bind (OnChat P)
          (in_world (in_db (record_screenshot now local_now t message.message_id)))
          (after_screenshot settings bot message)
          (λ c h. record_screenshot-Keeps now local_now t message.message_id c.world.database h)
          (λ s c h. subst P (sym (after_screenshot-same message s c)) h)

    thank-same :
        (message : Message) (c : Chat) → (thank bot message c).1.world.database ≡ c.world.database
    unfolding thank
    thank-same message c = ground arith

    forward_question-Keeps :
        (sent_at : ℕ) (message : Message) (u : User)
        → Keeps (OnChat P) (forward_question settings bot sent_at message u)
    unfolding forward_question
    forward_question-Keeps sent_at message u c =
        Keeps-bind (OnChat P) (in_world (in_db (Users.set_last_question_at u.id sent_at)))
          (λ user. thank bot message) (λ c. kept.by_question u.id sent_at c.world.database)
          (λ user c h. subst P (sym (thank-same message c)) h) _

    unless_too_soon-Keeps :
        (now sent_at : ℕ) (message : Message) (u : User)
        → Keeps (OnChat P) (unless_too_soon settings bot now sent_at message u)
    unfolding unless_too_soon refuse_question
    unless_too_soon-Keeps now sent_at message u =
        Keeps-if (OnChat P) _ (refuse_question bot message _)
          (forward_question settings bot sent_at message u) (λ c h. ground (arith, h))
          (forward_question-Keeps sent_at message u)

    pub receive_question-Keeps :
        (now sent_at : ℕ) (message : Message)
        → Keeps (OnChat P) (receive_question settings bot now sent_at message)
    unfolding receive_question
    receive_question-Keeps now sent_at message =
        Keeps-bind (OnChat P) (in_world (in_db (Users.get_or_create now message.from_user.id)))
          (unless_too_soon settings bot now sent_at message)
          (λ c. kept.by_register now message.from_user.id c.world.database)
          (unless_too_soon-Keeps now sent_at message)
