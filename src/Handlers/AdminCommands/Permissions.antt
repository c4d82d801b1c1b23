-- ===== src/Handlers/AdminCommands/Permissions.antt =====
-- /activate of app/handlers.py after its transaction, and /invite, and what they do to the database.
use telegram_subscription_ma.Base.{Option, none, some, refl, arith, Bool-cases, inl, inr}
use telegram_subscription_ma.Base.Int.{ℤ, int_eq}
use telegram_subscription_ma.Base.Text.{Text}
use telegram_subscription_ma.Base.Numerals.{strip}
use telegram_subscription_ma.Base.Action.{lift}
use telegram_subscription_ma.Db.Models.{Subscription}
use telegram_subscription_ma.Telegram.{Bot, Settings, truthy}
use telegram_subscription_ma.Telegram.ReadOnly.{IsReadOnly, bind-IsReadOnly}
use telegram_subscription_ma.Services.ChannelAccess.{create_invite_link, invite_to}
use telegram_subscription_ma.Services.ChannelAccess.Messages.{confirm_lem}
use telegram_subscription_ma.Handlers.Chat.{Message}
use telegram_subscription_ma.Handlers.Menus.{live_subscription}
use telegram_subscription_ma.Handlers.Menus.Shown.{live_subscription-IsReadOnly}
use telegram_subscription_ma.Handlers.Targets.{telegram_id_of}
use telegram_subscription_ma.Handlers.AdminCommands.{
  args_or_empty, report_activation, deliver_invite, invite_with, invite_subscriber, invite_id,
  admin_invite,
}

module _ (settings : Settings) (bot : Bot) (message : Message) where
  pub report_activation-IsReadOnly :
      (t : ℤ) (name : Text) (s : Option Subscription)
      → IsReadOnly (report_activation settings bot message t name s)
  unfolding report_activation
  report_activation-IsReadOnly t name none w = refl
  report_activation-IsReadOnly t name (some s) w =
      let (b, told, same) = confirm_lem settings bot t w in ground (arith, told, same)

  module _ (exc : Text) where
    deliver_invite-IsReadOnly :
        (t : ℤ) (link : Option Text) → IsReadOnly (deliver_invite bot exc message t link)
    unfolding deliver_invite
    deliver_invite-IsReadOnly t none w = refl
    deliver_invite-IsReadOnly t (some link) w = ground arith

    invite_to-IsReadOnly : (t : ℤ) (channel : Option Text) → IsReadOnly (invite_to bot t channel)
    unfolding invite_to
    invite_to-IsReadOnly t none w = refl
    invite_to-IsReadOnly t (some channel) w = refl

    invite_with-IsReadOnly :
        (t : ℤ) (channel : Option Text)
        → IsReadOnly (invite_with settings bot exc message t channel)
    unfolding invite_with create_invite_link
    invite_with-IsReadOnly t none = λ w. refl
    invite_with-IsReadOnly t (some channel) =
        bind-IsReadOnly (create_invite_link settings bot t) (deliver_invite bot exc message t)
          (invite_to-IsReadOnly t (truthy settings.channel_id)) (deliver_invite-IsReadOnly t)

    invite_subscriber-IsReadOnly :
        (t : ℤ) (s : Option Subscription)
        → IsReadOnly (invite_subscriber settings bot exc message t s)
    unfolding invite_subscriber
    invite_subscriber-IsReadOnly t none = λ w. refl
    invite_subscriber-IsReadOnly t (some s) = invite_with-IsReadOnly t (truthy settings.channel_id)

    invite_id-IsReadOnly : (id : Option ℤ) → IsReadOnly (invite_id settings bot exc message id)
    unfolding invite_id
    invite_id-IsReadOnly none = λ w. refl
    invite_id-IsReadOnly (some t) =
        bind-IsReadOnly (live_subscription t) (invite_subscriber settings bot exc message t)
          (live_subscription-IsReadOnly t) (invite_subscriber-IsReadOnly t)

    pub admin_invite-IsReadOnly :
        (args : Option Text) → IsReadOnly (admin_invite settings bot exc message args)
    unfolding admin_invite
    admin_invite-IsReadOnly args w =
        elim (Bool-cases (int_eq message.from_user.id settings.admin_id)) [
          | inl admin ↦ rw admin (
              bind-IsReadOnly (lift (telegram_id_of (strip (args_or_empty args))))
                (invite_id settings bot exc message) (λ w. refl) invite_id-IsReadOnly w)
          | inr other ↦ rw other refl
        ]
