-- ===== src/Handlers/AdminCommands/Invitations.antt =====
-- Whom /invite of app/handlers.py lets in.
use telegram_subscription_ma.Base.{
  ◌≡◌, true, Option, none, some, [], ◌∷◌, arith, Option-cases, inl, inr, where_rows, first,
  order_by,
}
use telegram_subscription_ma.Base.Int.{ℤ, int_eq_iff}
use telegram_subscription_ma.Base.Text.{Text}
use telegram_subscription_ma.Base.Numerals.{strip}
use telegram_subscription_ma.Base.Action.{ok}
use telegram_subscription_ma.Db.Models.{Database}
use telegram_subscription_ma.Db.Users.{has_telegram_id, fits_integer}
use telegram_subscription_ma.Db.Subscriptions.{live_rows, get_active_or_expiring_for_user}
use telegram_subscription_ma.Db.Invariant.{IsValid}
use telegram_subscription_ma.Db.Laws.{get_by_telegram_id_lem}
use telegram_subscription_ma.Telegram.{send_message, Bot, Settings, World}
use telegram_subscription_ma.Handlers.Chat.{Message}
use telegram_subscription_ma.Handlers.Menus.{live_of, live_subscription}
use telegram_subscription_ma.Handlers.Targets.{telegram_id_of}
use telegram_subscription_ma.Handlers.AdminCommands.{
  args_or_empty, no_live_subscription, invite_subscriber, invite_id, admin_invite,
}

-- No live row of a user with this id.
abbrev pub IsUnpaid : ℤ → Database → Type 0
IsUnpaid t db = elim (first (where_rows (has_telegram_id t) db.users)) [
  | none ↦ Unit {0}
  | some u ↦ live_rows u.id db ≡ []
]

live_subscription-none :
    (t : ℤ) (w : World)
    → IsValid w.database
    → fits_integer t ≡ true
    → IsUnpaid t w.database
    → live_subscription t w ≡ (ok none, w)
unfolding live_subscription live_of get_active_or_expiring_for_user order_by
live_subscription-none t w v fits unpaid =
    let e = get_by_telegram_id_lem t w.database v fits in
    elim (Option-cases (first (where_rows (has_telegram_id t) w.database.users))) [
      | inl absent ↦ ground (arith, e, absent)
      | inr (u, found) ↦
          let empty : live_rows u.id w.database ≡ [] = rw (found, IsUnpaid) at unpaid in
          ground (arith, e, found, empty)
    ]

-- Where the id that the admin gives is that of no user, or of one without a live subscription, on a
-- valid database and for an id that the column holds, /invite asks Telegram for no link: the admin is
-- told that there is no subscription, which is the only call, and nothing is written.
pub admin_invite_refused :
    (settings : Settings) (bot : Bot) (exc : Text) (message : Message) (args : Option Text) (t : ℤ)
    (w : World)
    → message.from_user.id ≡ settings.admin_id
    → telegram_id_of (strip (args_or_empty args)) ≡ ok (some t)
    → IsValid w.database
    → fits_integer t ≡ true
    → IsUnpaid t w.database
    → (admin_invite settings bot exc message args w).1
      ≡ record w { calls = send_message message.chat (no_live_subscription t) ∷ w.calls }
unfolding admin_invite invite_id invite_subscriber
admin_invite_refused settings bot exc message args t w by_admin named v fits unpaid =
    let admin = (int_eq_iff message.from_user.id settings.admin_id).1 by_admin in
    ground (arith, admin, named, live_subscription-none t w v fits unpaid)
