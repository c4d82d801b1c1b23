-- ===== src/Handlers/Subscribers.antt =====
-- The admin's /subscribers in app/handlers.py: a report on everyone who has paid. The pauses between
-- the calls are left out.
pub mod Report
pub mod Tallies
use telegram_subscription_ma.Base.{
  ℕ, ◌+◌, ◌==◌, Bool, true, false, ◌&&◌, ◌||◌, not, leb, ltb, Option, none, some, List, [], ◌∷◌,
  ◌++◌, map, length, where_rows, first, find, order_by, if◌then◌else◌, is_some,
}
use telegram_subscription_ma.Base.Int.{ℤ, int_eq}
use telegram_subscription_ma.Base.Text.{Text, codes, text_eq}
use telegram_subscription_ma.Base.Numerals.{str_nat, str_int}
use telegram_subscription_ma.Base.Action.{Result, ok, err, pure, raise, gets, ◌>>=◌, ◌>>◌}
use telegram_subscription_ma.Db.Models.{User, Subscription, Payment, Database}
use telegram_subscription_ma.Db.Exceptions.{Exception, attribute_error, Query}
use telegram_subscription_ma.Db.Subscriptions.{list_active_or_expiring}
use telegram_subscription_ma.Domain.Calendar.{format_iso_date}
use telegram_subscription_ma.Telegram.{
  ChatMemberStatus, creator, administrator, member, restricted, left, kicked, get_chat,
  get_chat_member, ChatInfo, Bot, Settings, Program, in_db, call, answer, truthy,
}
use telegram_subscription_ma.Handlers.Chat.{Message}
use telegram_subscription_ma.Handlers.Chunks.{split_into_chunks, telegram_message_limit}

-- A subscription with its user and its payments, as the query loads them.
pub record Row : Type 0 where
  pub subscription : Subscription
  pub user : Option User
  pub payments : List Payment

abbrev row_of : Database → Subscription → Row
row_of db s = record {
  subscription = s;
  user = find (λ u. u.id == s.user_id) db.users;
  payments = where_rows (λ p. p.subscription_id == s.id) db.payments;
}

unfoldable pub load_rows : Query (List Row)
load_rows = list_active_or_expiring >>= λ subscriptions. gets (λ db. map (row_of db) subscriptions)

-- What the loop adds up.
pub record Tally : Type 0 where
  pub lines : List Text
  pub provider_counts : List (Text × ℕ)
  pub in_channel_count : ℕ
  pub not_in_channel_count : ℕ

-- `provider_counts[provider] = provider_counts.get(provider, 0) + 1`
abbrev pub add_count : Text → List (Text × ℕ) → List (Text × ℕ)
add_count provider [] = (provider, 1) ∷ []
add_count provider ((p, n) ∷ counts) =
    let rest = add_count provider counts in
    if text_eq p provider then (p, n + 1) ∷ counts else (p, n) ∷ rest

abbrev pub provider_or_dash : Option Payment → Text
provider_or_dash none = codes "—"
provider_or_dash (some payment) = payment.provider

-- The provider of `max(subscription.payments, key=lambda p: p.id, default=None)`
abbrev pub latest_provider : List Payment → Text
latest_provider payments = provider_or_dash (first (order_by (λ p q. leb q.id p.id) payments))

abbrev pub expires_str_of : Option ℕ → Text
expires_str_of none = codes "—"
expires_str_of (some expires_at) = format_iso_date expires_at

-- The member's `.value`
abbrev pub value : ChatMemberStatus → Text
value creator = codes "creator"
value administrator = codes "administrator"
value member = codes "member"
value restricted = codes "restricted"
value left = codes "left"
value kicked = codes "kicked"

-- `_NOT_IN_CHANNEL_STATUSES`
abbrev pub is_outside : ChatMemberStatus → Bool
is_outside left = true
is_outside kicked = true
is_outside _ = false

abbrev with_username : Text → Option Text → Text
with_username name none = name
with_username name (some username) = name ++ codes " (@" ++ username ++ codes ")"

abbrev name_or_id : ℤ → Option Text → Text
name_or_id telegram_id none = str_int telegram_id
name_or_id telegram_id (some full_name) = full_name

abbrev display_of : ℤ → Option ChatInfo → Text
display_of telegram_id none = str_int telegram_id
display_of telegram_id (some chat) =
    with_username (name_or_id telegram_id (truthy chat.full_name)) (truthy chat.username)

unfoldable pub resolve_display_name : Bot → ℤ → Program Text
resolve_display_name bot telegram_id =
    call (get_chat telegram_id) (λ h. display_of telegram_id (bot.chat_info h telegram_id))

-- `none` where the lookup fails.
unfoldable pub resolve_membership_status : Bot → Text → ℤ → Program (Option ChatMemberStatus)
resolve_membership_status bot channel telegram_id =
    call (get_chat_member channel telegram_id) (λ h. bot.membership h channel telegram_id)

-- The end of the line, and the counters.
abbrev count_member : Tally → Text → Option ChatMemberStatus → Tally
count_member tally line none = record tally {
  lines = tally.lines ++ (line ++ codes " — канал: неизвестно (ошибка API)") ∷ [];
}
count_member tally line (some status) =
    if is_outside status
    then record tally {
      lines =
          tally.lines
          ++ (line ++ codes " — канал: " ++ value status ++ codes " — NOT IN CHANNEL") ∷ [];
      not_in_channel_count = tally.not_in_channel_count + 1;
    }
    else record tally {
      lines = tally.lines ++ (line ++ codes " — канал: " ++ value status) ∷ [];
      in_channel_count = tally.in_channel_count + 1;
    }

unfoldable pub add_membership : Bot → Option Text → ℤ → Tally → Text → Program Tally
add_membership bot none telegram_id tally line =
    pure (record tally { lines = tally.lines ++ line ∷ [] })
add_membership bot (some channel) telegram_id tally line =
    resolve_membership_status bot channel telegram_id >>= λ status.
    pure (count_member tally line status)

unfoldable pub report_user : Bot → Option Text → Row → Tally → Option User → Program Tally
report_user bot channel row tally none = raise attribute_error
report_user bot channel row tally (some user) =
    let provider = latest_provider row.payments in
    let expires_str = expires_str_of row.subscription.expires_at in
    resolve_display_name bot user.telegram_id >>= λ display.
    add_membership bot channel user.telegram_id
      (record tally { provider_counts = add_count provider tally.provider_counts })
      (display
        ++ codes " — id "
        ++ str_int user.telegram_id
        ++ codes " — provider: "
        ++ provider
        ++ codes " — до "
        ++ expires_str)

-- The loop over the subscriptions.
unfoldable pub report_rows : Bot → Option Text → List Row → Tally → Program Tally
report_rows bot channel [] tally = pure tally
report_rows bot channel (row ∷ rows) tally =
    report_user bot channel row tally row.user >>= report_rows bot channel rows

-- `a < b` on texts, by code points.
abbrev pub text_leb : Text → Text → Bool
text_leb [] t = true
text_leb (a ∷ s) [] = false
text_leb (a ∷ s) (b ∷ t) = ltb a b || ((a == b) && text_leb s t)

abbrev count_line : Text × ℕ → Text
count_line (provider, count) = codes "  " ++ provider ++ codes ": " ++ str_nat count

abbrev head_lines : Option Text → List Text
head_lines none =
    (codes "⚠" ++ 0xFE0F ∷ codes " CHANNEL_ID не настроен — колонка статуса в канале пропущена.")
    ∷ []
    ∷ []
head_lines (some channel) = []

abbrev nobody_line : List Row → List Text
nobody_line [] = (codes "Нет активных подписчиков.") ∷ []
nobody_line (row ∷ rows) = []

abbrev channel_lines : Option Text → Tally → List Text
channel_lines none tally = []
channel_lines (some channel) tally =
    (codes "В канале: " ++ str_nat tally.in_channel_count)
    ∷ (codes "НЕ в канале: " ++ str_nat tally.not_in_channel_count)
    ∷ []

-- What is under the rows.
abbrev pub summary : Option Text → ℕ → Tally → List Text
summary channel total tally =
    []
      ∷ codes "📊 Сводка:"
      ∷ (codes "Всего платящих: " ++ str_nat total)
      ∷ channel_lines channel tally
    ++ codes "По провайдерам:"
      ∷ map count_line (order_by (λ a b. text_leb a.0 b.0) tally.provider_counts)

abbrev pub empty_tally : Option Text → Tally
empty_tally channel = record {
  lines = head_lines channel;
  provider_counts = [];
  in_channel_count = 0;
  not_in_channel_count = 0;
}

unfoldable pub send_chunks : Bot → ℤ → List Text → Program (Unit {0})
send_chunks bot chat [] = pure tt
send_chunks bot chat (chunk ∷ chunks) = answer bot chat chunk >> send_chunks bot chat chunks

unfoldable pub report_on : Bot → Option Text → Message → List Row → Program (Unit {0})
report_on bot channel message rows = do
  tally ← report_rows bot channel rows (empty_tally channel)
  send_chunks bot message.chat (
      split_into_chunks telegram_message_limit
        (tally.lines ++ nobody_line rows ++ summary channel (length rows) tally))

unfoldable pub admin_subscribers : Settings → Bot → Message → Program (Unit {0})
admin_subscribers settings bot message =
    if not (int_eq message.from_user.id settings.admin_id)
    then pure tt
    else in_db load_rows >>= report_on bot (truthy settings.channel_id) message
