-- ===== src/Services/ChannelAccess/Messages.antt =====
-- What app/services/channel_access.py asks of Telegram.
use telegram_subscription_ma.Base.{Bool, ap, ◌≡◌, refl, Option, none, some, List, ◌∷◌}
use telegram_subscription_ma.Base.Int.{ℤ}
use telegram_subscription_ma.Base.Text.{Text}
use telegram_subscription_ma.Base.Action.{ok, ◌>>=◌}
use telegram_subscription_ma.Telegram.{
  Call, create_chat_invite_link, send_message, Bot, Settings, truthy, World,
}
use telegram_subscription_ma.Services.ChannelAccess.{
  link_name, invite_to, create_invite_link, confirmation, send_confirmation,
  confirm_and_grant_access,
}

-- The calls `h` before the message, and the link that is to be sent: nothing without a channel, and
-- otherwise one request for a link of a single use, with Telegram's answer to it.
abbrev pub Asked : Option Text → Bot → ℤ → List Call → List Call → Option Text → Type 0
Asked none bot t calls h link = (h ≡ calls) × (link ≡ none)
Asked (some channel) bot t calls h link =
    (h ≡ create_chat_invite_link channel (link_name t) 1 ∷ calls)
    × (link ≡ bot.invites calls channel (link_name t))

module _ (bot : Bot) (t : ℤ) (w : World) where
  told_by :
      (channel : Option Text)
      → (h : List Call) × (invite_link : Option Text) × Asked channel bot t w.calls h invite_link
        × ((invite_to bot t channel >>= send_confirmation bot t) w ≡ (
          ok (bot.delivers h t (confirmation (truthy invite_link))),
          record w { calls = send_message t (confirmation (truthy invite_link)) ∷ h },
        ))
  unfolding invite_to send_confirmation
  told_by none = (w.calls, none, (refl, refl), refl)
  told_by (some channel) = (
    create_chat_invite_link channel (link_name t) 1 ∷ w.calls,
    bot.invites w.calls channel (link_name t),
    (refl, refl),
    refl,
  )

  pub confirm_and_grant_access_lem :
      (settings : Settings)
      → (h : List Call) × (invite_link : Option Text) × Asked
          (truthy settings.channel_id)
          bot
          t
          w.calls
          h
          invite_link
        × (confirm_and_grant_access settings bot t w ≡ (
          ok (bot.delivers h t (confirmation (truthy invite_link))),
          record w { calls = send_message t (confirmation (truthy invite_link)) ∷ h },
        ))
  unfolding confirm_and_grant_access create_invite_link
  confirm_and_grant_access_lem settings = told_by (truthy settings.channel_id)

-- The confirmation never raises and leaves the database alone, however Telegram answers.
pub confirm_lem :
    (settings : Settings) (bot : Bot) (t : ℤ) (w : World)
    → let (result, w') = confirm_and_grant_access settings bot t w in
      (b : Bool) × (result ≡ ok b) × (w'.database ≡ w.database)
confirm_lem settings bot t w =
    let (h, link, asked, e) = confirm_and_grant_access_lem bot t w settings in
    (bot.delivers h t (confirmation (truthy link)), ap (λ r. r.0) e, ap (λ r. r.1.database) e)
