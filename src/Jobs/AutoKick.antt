-- ===== src/Jobs/AutoKick.antt =====
-- app/jobs/auto_kick.py. `now` is `utcnow()` when the job asks for it; the log is left out.
pub mod Transitions
pub mod Safety
pub mod Discipline
pub mod Outcome
pub mod Sweep
use telegram_subscription_ma.Base.{
  ℕ, ltb, Bool, true, false, Option, none, some, List, [], ◌∷◌, if◌then◌else◌,
}
use telegram_subscription_ma.Base.Int.{ℤ}
use telegram_subscription_ma.Base.Text.{Text, codes}
use telegram_subscription_ma.Base.Action.{Result, ok, err, pure, raise, catch, gets, ◌>>=◌, ◌>>◌}
use telegram_subscription_ma.Db.Models.{
  SubscriptionStatus, active, expiring, expired, kicked, status_eq, User, Subscription,
}
use telegram_subscription_ma.Db.Exceptions.{
  Exception, duplicate_payment, invalid_transition, value_error, key_error, integrity_error,
  multiple_results_found, Query,
}
use telegram_subscription_ma.Db.Users
use telegram_subscription_ma.Db.Subscriptions
use telegram_subscription_ma.Db.Subscriptions.{expires_in}
use telegram_subscription_ma.Telegram.{
  ChatMemberStatus, creator, administrator, send_message, get_chat_member, ban_chat_member,
  unban_chat_member, Bot, Settings, truthy, Program, in_db, call,
}

abbrev pub kicked_text : Text
kicked_text =
    codes
      "🚫 Доступ к каналу закрыт — подписка истекла.\n\nЧтобы вернуться, оформи новую подписку через бота 💫"

-- Each hop is a call of `update_status` of its own, committed before the next.
unfoldable pub advance_to_kicked : ℕ → SubscriptionStatus → Query Subscription
advance_to_kicked subscription_id current_status = do
  status ←
      (if status_eq current_status active
        then Subscriptions.update_status subscription_id expiring none >> pure expiring
        else pure current_status)
  (if status_eq status expiring
      then Subscriptions.update_status subscription_id expired none >> pure tt
      else pure tt)
  Subscriptions.update_status subscription_id kicked none

abbrev pub is_protected_status : ChatMemberStatus → Bool
is_protected_status administrator = true
is_protected_status creator = true
is_protected_status _ = false

-- A lookup that fails does not protect.
abbrev pub is_protection : Option ChatMemberStatus → Bool
is_protection none = false
is_protection (some status) = is_protected_status status

unfoldable pub is_protected_member : Bot → Text → ℤ → Program Bool
is_protected_member bot channel telegram_id = do
  member_status ←
      call (get_chat_member channel telegram_id) (λ h. bot.membership h channel telegram_id)
  pure (is_protection member_status)

-- Ban, and unban at once if the ban succeeded; a TelegramAPIError of either is logged.
unfoldable pub ban_and_unban : Bot → Text → ℤ → Program (Unit {0})
ban_and_unban bot channel telegram_id = do
  banned ← call (ban_chat_member channel telegram_id) (λ h. bot.bans h channel telegram_id)
  (if banned
      then call (unban_chat_member channel telegram_id true) (λ h. bot.unbans h channel telegram_id)
      else pure false)
  pure tt

-- The rest of `_remove_from_channel`, by what `_is_protected_member` has answered.
unfoldable pub unless_protected : Settings → Bot → Text → ℤ → Bool → Program (Unit {0})
unless_protected settings bot channel telegram_id true = pure tt
unless_protected settings bot channel telegram_id false =
    if settings.dry_run_kick then pure tt else ban_and_unban bot channel telegram_id

-- `_remove_from_channel`, by the channel that is configured.
unfoldable pub remove_from : Settings → Bot → ℤ → Option Text → Program (Unit {0})
remove_from settings bot telegram_id none = pure tt
remove_from settings bot telegram_id (some channel) =
    is_protected_member bot channel telegram_id
    >>= unless_protected settings bot channel telegram_id

unfoldable pub remove_from_channel : Settings → Bot → ℤ → Program (Unit {0})
remove_from_channel settings bot telegram_id =
    remove_from settings bot telegram_id (truthy settings.channel_id)

unfoldable pub find_other_live_subscription : ℕ → ℕ → Query (Option Subscription)
find_other_live_subscription now user_id = do
  live ← Subscriptions.get_active_or_expiring_for_user user_id
  pure (elim live [ none ↦ none | some s ↦ if expires_in (λ e. ltb now e) s then some s else none ])

-- The access-removed notice, whose failure is logged.
unfoldable pub send_notice : Settings → Bot → ℤ → Program (Unit {0})
send_notice settings bot telegram_id =
    if settings.dry_run_kick
    then pure tt
    else (call (send_message telegram_id kicked_text) (λ h. bot.delivers h telegram_id kicked_text)
        >> pure tt)

-- What is left of `_kick_one` once the row is KICKED and its user is known: nothing, if the user
-- has another live subscription.
unfoldable pub unless_live_elsewhere :
    Settings → Bot → User → Option Subscription → Program (Unit {0})
unless_live_elsewhere settings bot user (some other_live) = pure tt
unless_live_elsewhere settings bot user none =
    remove_from_channel settings bot user.telegram_id >> send_notice settings bot user.telegram_id

unfoldable pub close_access : Settings → Bot → ℕ → Option User → Program (Unit {0})
close_access settings bot now none = pure tt
close_access settings bot now (some user) =
    in_db (find_other_live_subscription now user.id) >>= unless_live_elsewhere settings bot user

unfoldable pub after_kick : Settings → Bot → ℕ → Option Subscription → Program (Unit {0})
after_kick settings bot now none = pure tt
after_kick settings bot now (some row) =
    in_db (Users.get_by_id row.user_id) >>= close_access settings bot now

-- `except InvalidTransitionError: … return`
unfoldable pub skip_invalid_transition : Exception → Program (Option Subscription)
skip_invalid_transition (invalid_transition from_status to_status) = pure none
skip_invalid_transition e = raise e

-- The `try` of `_kick_one`: the row that is now KICKED, or `none` where a transition was refused.
unfoldable pub try_advance : Subscription → Program (Option Subscription)
unfolding skip_invalid_transition
try_advance subscription =
    catch (in_db (advance_to_kicked subscription.id subscription.status) >>= λ row. pure (some row))
      skip_invalid_transition

unfoldable pub kick_one : Settings → Bot → ℕ → Subscription → Program (Unit {0})
kick_one settings bot now subscription = try_advance subscription >>= after_kick settings bot now

unfoldable pub kick_each : Settings → Bot → ℕ → List Subscription → Program (Unit {0})
kick_each settings bot now [] = pure tt
kick_each settings bot now (s ∷ rest) =
    kick_one settings bot now s >> kick_each settings bot now rest

unfoldable pub run_auto_kick : Settings → Bot → ℕ → Program (Unit {0})
run_auto_kick settings bot now =
    in_db (Subscriptions.list_expired now) >>= kick_each settings bot now
