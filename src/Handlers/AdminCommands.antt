-- ===== src/Handlers/AdminCommands.antt =====
-- The admin's /activate and /invite in app/handlers.py.
pub mod Permissions
pub mod Invitations
use telegram_subscription_ma.Base.{ℕ, Option, none, some, [], ◌∷◌, ◌++◌, not, if◌then◌else◌}
use telegram_subscription_ma.Base.Int.{ℤ, int_eq}
use telegram_subscription_ma.Base.Text.{Text, codes}
use telegram_subscription_ma.Base.Numerals.{str_int, strip}
use telegram_subscription_ma.Base.Action.{Result, ok, err, pure, lift, ◌>>=◌, ◌>>◌}
use telegram_subscription_ma.Db.Models.{Subscription}
use telegram_subscription_ma.Db.Exceptions.{Exception, attribute_error}
use telegram_subscription_ma.Domain.Calendar.{format_iso_date}
use telegram_subscription_ma.Services.PaymentService.{activate_manual_admin_grant}
use telegram_subscription_ma.Services.ChannelAccess.{create_invite_link, confirm_and_grant_access}
use telegram_subscription_ma.Telegram.{
  send_message, Bot, Settings, Program, in_db, call, answer, truthy,
}
use telegram_subscription_ma.Handlers.Chat.{Message}
use telegram_subscription_ma.Handlers.Menus.{live_subscription}
use telegram_subscription_ma.Handlers.Targets.{Target, resolve_target, telegram_id_of}

-- `command.args or ""`
abbrev pub args_or_empty : Option Text → Text
args_or_empty none = []
args_or_empty (some args) = args

-- `subscription.expires_at.strftime("%Y-%m-%d")`, an AttributeError on None.
abbrev expires_str_of : Option ℕ → Result Exception Text
expires_str_of none = err attribute_error
expires_str_of (some expires_at) = ok (format_iso_date expires_at)

unfoldable pub report_activation :
    Settings → Bot → Message → ℤ → Text → Option Subscription → Program (Unit {0})
report_activation settings bot message telegram_id display_name none = answer bot message.chat (
    codes "⚠"
    ++ 0xFE0F ∷ codes " Активация для "
    ++ display_name
    ++ codes " (id "
    ++ str_int telegram_id
    ++ codes ") уже была выполнена параллельно.")
report_activation settings bot message telegram_id display_name (some subscription) = do
  told ← confirm_and_grant_access settings bot telegram_id
  expires_str ← lift (expires_str_of subscription.expires_at)
  answer bot message.chat (
      codes "✅ Активировано вручную: "
      ++ display_name
      ++ codes " (telegram_id "
      ++ str_int telegram_id
      ++ codes ")\nПодписка активна до "
      ++ expires_str
      ++ codes ".")

unfoldable pub activate_target :
    Settings → Bot → ℕ → ℕ → Text → Message → Target → Program (Unit {0})
activate_target settings bot now local_now uuid4 message (err text) = answer bot message.chat text
activate_target settings bot now local_now uuid4 message (ok (telegram_id, display_name)) =
    in_db (activate_manual_admin_grant now local_now uuid4 telegram_id)
    >>= report_activation settings bot message telegram_id display_name

unfoldable pub admin_activate :
    Settings → Bot → ℕ → ℕ → Text → Message → Option Text → Program (Unit {0})
admin_activate settings bot now local_now uuid4 message args =
    if not (int_eq message.from_user.id settings.admin_id)
    then pure tt
    else lift (resolve_target message.reply_to_message (args_or_empty args))
      >>= activate_target settings bot now local_now uuid4 message

abbrev invite_usage : Text
invite_usage = codes "Использование: /invite <telegram_id>"

-- The client gets the link; where that fails the admin does, with what the exception says (`exc`).
unfoldable pub deliver_invite : Bot → Text → Message → ℤ → Option Text → Program (Unit {0})
deliver_invite bot exc message telegram_id none = answer bot message.chat (
    codes "❌ Не удалось создать ссылку-приглашение для telegram_id "
    ++ str_int telegram_id
    ++ codes " (ошибка Telegram API).")
deliver_invite bot exc message telegram_id (some invite_link) =
    let text =
      codes "🔗 Вот свежая ссылка на канал:\n\n"
      ++ invite_link
      ++ codes "\n\nСсылка одноразовая — не передавай её другим 💫" in
    call (send_message telegram_id text) (λ h. bot.delivers h telegram_id text) >>= λ delivered.
    if delivered
    then answer bot message.chat
        (codes "✅ Ссылка на канал отправлена telegram_id " ++ str_int telegram_id ++ codes ".")
    else answer bot message.chat (
        codes "⚠"
        ++ 0xFE0F ∷ codes " Не удалось отправить ссылку в личные сообщения telegram_id "
        ++ str_int telegram_id
        ++ codes " — он, вероятно, не запускал бота ("
        ++ exc
        ++ codes ").\n\nПерешли вручную:\n"
        ++ invite_link)

unfoldable pub invite_with : Settings → Bot → Text → Message → ℤ → Option Text → Program (Unit {0})
invite_with settings bot exc message telegram_id none =
    answer bot message.chat
      (codes "⚠" ++ 0xFE0F ∷ codes " CHANNEL_ID не настроен — не могу создать ссылку на канал.")
invite_with settings bot exc message telegram_id (some channel) =
    create_invite_link settings bot telegram_id >>= deliver_invite bot exc message telegram_id

abbrev pub no_live_subscription : ℤ → Text
no_live_subscription telegram_id =
    codes "❌ У telegram_id "
    ++ str_int telegram_id
    ++ codes " нет активной подписки (ACTIVE/EXPIRING) — ссылка не отправлена."

-- From the test of the subscription on.
unfoldable pub invite_subscriber :
    Settings → Bot → Text → Message → ℤ → Option Subscription → Program (Unit {0})
invite_subscriber settings bot exc message telegram_id none =
    answer bot message.chat (no_live_subscription telegram_id)
invite_subscriber settings bot exc message telegram_id (some subscription) =
    invite_with settings bot exc message telegram_id (truthy settings.channel_id)

-- Which argument is an id is decided as in `_resolve_target`.
unfoldable pub invite_id : Settings → Bot → Text → Message → Option ℤ → Program (Unit {0})
invite_id settings bot exc message none =
    answer bot message.chat (codes "❌ /invite ожидает числовой telegram_id.\n\n" ++ invite_usage)
invite_id settings bot exc message (some telegram_id) =
    live_subscription telegram_id >>= invite_subscriber settings bot exc message telegram_id

unfoldable pub admin_invite : Settings → Bot → Text → Message → Option Text → Program (Unit {0})
admin_invite settings bot exc message args =
    if not (int_eq message.from_user.id settings.admin_id)
    then pure tt
    else lift (telegram_id_of (strip (args_or_empty args))) >>= invite_id settings bot exc message
