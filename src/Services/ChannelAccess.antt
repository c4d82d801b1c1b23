-- ===== src/Services/ChannelAccess.antt =====
-- app/services/channel_access.py: telling a subscriber that the payment has landed, with a link into
-- the channel where one can be made. The log is left out.
pub mod Messages
use telegram_subscription_ma.Base.{ℕ, Bool, Option, none, some, List, [], ◌∷◌, ◌++◌, zero, suc}
use telegram_subscription_ma.Base.Int.{ℤ}
use telegram_subscription_ma.Base.Text.{Text, codes}
use telegram_subscription_ma.Base.Numerals.{str_int}
use telegram_subscription_ma.Base.Action.{ok, err, pure, ◌>>=◌}
use telegram_subscription_ma.Telegram.{
  create_chat_invite_link, send_message, Bot, Settings, truthy, Program, call,
}

abbrev pub confirmed_with_link : Text → Text
confirmed_with_link invite_link =
    codes
      "🎉 Оплата получена! Доступ в закрытый клуб активен 30 дней.\n\n🔗 Твоя персональная ссылка на канал:\n"
    ++ invite_link
    ++ codes "\n\nСсылка одноразовая — не передавай её другим 💫"

abbrev pub confirmed_without_link : Text
confirmed_without_link =
    codes
      "🎉 Оплата получена! Доступ в закрытый клуб активен 30 дней.\n\nИрина добавит тебя в канал в течение дня — если ссылка не придёт, напиши ей прямо здесь 💫"

-- `text[:n]`
abbrev pub prefix : ℕ → Text → Text
prefix zero text = []
prefix (suc n) [] = []
prefix (suc n) (c ∷ text) = c ∷ prefix n text

-- `f"sub-{telegram_id}"[:32]`
abbrev pub link_name : ℤ → Text
link_name telegram_id = prefix 32 (codes "sub-" ++ str_int telegram_id)

-- `_create_invite_link`, by the channel that is configured.
unfoldable pub invite_to : Bot → ℤ → Option Text → Program (Option Text)
invite_to bot telegram_id none = pure none
invite_to bot telegram_id (some channel) =
    call (create_chat_invite_link channel (link_name telegram_id) 1)
      (λ h. bot.invites h channel (link_name telegram_id))

unfoldable pub create_invite_link : Settings → Bot → ℤ → Program (Option Text)
create_invite_link settings bot telegram_id = invite_to bot telegram_id (truthy settings.channel_id)

-- By `if invite_link`.
abbrev pub confirmation : Option Text → Text
confirmation none = confirmed_without_link
confirmation (some invite_link) = confirmed_with_link invite_link

unfoldable pub send_confirmation : Bot → ℤ → Option Text → Program Bool
send_confirmation bot telegram_id invite_link =
    let text = confirmation (truthy invite_link) in
    call (send_message telegram_id text) (λ h. bot.delivers h telegram_id text)

unfoldable pub confirm_and_grant_access : Settings → Bot → ℤ → Program Bool
confirm_and_grant_access settings bot telegram_id =
    create_invite_link settings bot telegram_id >>= send_confirmation bot telegram_id
