-- ===== src/System/Handlers.antt =====
-- The admin's writing handlers of app/handlers.py as sequences of the steps of System.
use telegram_subscription_ma.Base.{ℕ, Option, none, some, refl, arith, not, ◌*◌, ◌++◌}
use telegram_subscription_ma.Base.Int.{ℤ, pos, negsuc, int_eq}
use telegram_subscription_ma.Base.Text.{Text, codes}
use telegram_subscription_ma.Base.Action.{ok, err, lift, pure, catch, ◌>>=◌}
use telegram_subscription_ma.Base.Action.Keeps.{Keeps, Keeps-bind, Keeps-catch, Keeps-if}
use telegram_subscription_ma.Db.Models.{Subscription, Database}
use telegram_subscription_ma.Db.Exceptions.{Exception}
use telegram_subscription_ma.Db.Users
use telegram_subscription_ma.Domain.Pricing.{get_current_price}
use telegram_subscription_ma.Telegram.{Bot, Settings, Program, in_db}
use telegram_subscription_ma.Telegram.ReadOnly.{IsReadOnly}
use telegram_subscription_ma.Services.PaymentService.{
  provider_manual_admin, activate_manual_admin_grant,
}
use telegram_subscription_ma.Handlers.Chat.{Message, CallbackQuery, answer_query}
use telegram_subscription_ma.Handlers.ManualPayment.{subscription_id_of}
use telegram_subscription_ma.Handlers.Targets.{Target, resolve_target}
use telegram_subscription_ma.Handlers.Screenshots.{
  confirm_id, refuse_confirmation, tell_subscriber, after_confirmation, confirm_as_admin,
  confirm_payment,
}
use telegram_subscription_ma.Handlers.AdminCommands.{
  args_or_empty, report_activation, activate_target, admin_activate,
}
use telegram_subscription_ma.Handlers.AdminCommands.Permissions.{report_activation-IsReadOnly}
use telegram_subscription_ma.System.Clients.{IsKeptByClients, OnWorld, reads-Keeps}
use telegram_subscription_ma.System.{
  Reach, next, activate, confirm, register, place, record_payment, asked,
}

-- From the database `db0` on.
module _ (db0 : Database) where
  abbrev P : Database → Type 0
  P = Reach db0

  pub Reach-IsKeptByClients : IsKeptByClients P
  Reach-IsKeptByClients = record {
    by_register = λ now t db h. next h (register now t refl);
    by_place = λ now user_id db h. next h (place now user_id refl);
    by_payment = λ now id provider provider_ref amount currency db h.
        next h (record_payment now id provider provider_ref amount currency refl);
    by_question = λ id moment db h. next h (asked id moment refl);
  }

  module _ (settings : Settings) (bot : Bot) where
    activate_target-Keeps :
        (now local_now : ℕ) (uuid4 : Text) (message : Message) (target : Target)
        → Keeps (OnWorld P) (activate_target settings bot now local_now uuid4 message target)
    unfolding activate_target activate_manual_admin_grant
    activate_target-Keeps now local_now uuid4 message (err text) = λ w h. h
    activate_target-Keeps now local_now uuid4 message (ok (t, name)) =
        Keeps-bind (OnWorld P) (in_db (activate_manual_admin_grant now local_now uuid4 t))
          (report_activation settings bot message t name)
          (λ w h. next h (
            activate now t provider_manual_admin (codes "manual-admin-" ++ uuid4)
              (get_current_price local_now * 100) (codes "PLN") refl))
          (λ s.
            reads-Keeps P (report_activation settings bot message t name s)
              (report_activation-IsReadOnly settings bot message t name s))

    pub admin_activate-Keeps :
        (now local_now : ℕ) (uuid4 : Text) (message : Message) (args : Option Text)
        → Keeps (OnWorld P) (admin_activate settings bot now local_now uuid4 message args)
    unfolding admin_activate
    admin_activate-Keeps now local_now uuid4 message args =
        let resolve : Program Target =
          lift (resolve_target message.reply_to_message (args_or_empty args)) in
        Keeps-if (OnWorld P) (not (int_eq message.from_user.id settings.admin_id)) (pure tt)
          (resolve >>= activate_target settings bot now local_now uuid4 message) (λ w h. h)
          (Keeps-bind (OnWorld P) resolve (activate_target settings bot now local_now uuid4 message)
            (λ w h. h) (activate_target-Keeps now local_now uuid4 message))

    confirm_id-Keeps : (now : ℕ) (id : ℤ) → Keeps P (confirm_id now id)
    confirm_id-Keeps now (pos id) db h = next h (confirm now id refl)
    confirm_id-Keeps now (negsuc n) db h = h

    refusal-IsReadOnly :
        (callback : CallbackQuery) (e : Exception) → IsReadOnly (refuse_confirmation bot callback e)
    unfolding refuse_confirmation
    refusal-IsReadOnly callback e w = ground arith

    after_confirmation-IsReadOnly :
        (callback : CallbackQuery) (s : Option Subscription)
        → IsReadOnly (after_confirmation bot callback s)
    unfolding after_confirmation tell_subscriber Users.get_by_id
    after_confirmation-IsReadOnly callback s w = ground arith

    confirm_as_admin-Keeps :
        (now : ℕ) (callback : CallbackQuery) → Keeps (OnWorld P) (confirm_as_admin bot now callback)
    unfolding confirm_as_admin
    confirm_as_admin-Keeps now callback =
        let attempt =
          λ (id : ℤ). in_db (confirm_id now id) >>= λ (s : Subscription). pure (some s) in
        let confirmed = λ (id : ℤ). catch (attempt id) (refuse_confirmation bot callback) in
        Keeps-bind (OnWorld P) (lift (subscription_id_of callback.sent_data))
          (λ id. confirmed id >>= after_confirmation bot callback) (λ w h. h)
          λ id.
            Keeps-bind (OnWorld P) (confirmed id) (after_confirmation bot callback)
              (Keeps-catch (OnWorld P) (attempt id) (refuse_confirmation bot callback)
                (Keeps-bind (OnWorld P) (in_db (confirm_id now id)) (λ s. pure (some s))
                  (λ w h. confirm_id-Keeps now id w.database h) (λ s w h. h))
                (λ e.
                  reads-Keeps P (refuse_confirmation bot callback e)
                    (refusal-IsReadOnly callback e)))
              (λ s.
                reads-Keeps P (after_confirmation bot callback s)
                  (after_confirmation-IsReadOnly callback s))

    pub confirm_payment-Keeps :
        (now : ℕ) (callback : CallbackQuery)
        → Keeps (OnWorld P) (confirm_payment settings bot now callback)
    unfolding confirm_payment
    confirm_payment-Keeps now callback =
        Keeps-if (OnWorld P) (not (int_eq callback.from_user.id settings.admin_id))
          (answer_query bot callback none) (confirm_as_admin bot now callback) (λ w h. h)
          (confirm_as_admin-Keeps now callback)
