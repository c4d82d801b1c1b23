-- ===== src/Handlers/Subscribers/Report.antt =====
-- The report of /subscribers in app/handlers.py, and the database.
use telegram_subscription_ma.Base.{
  Option, none, some, List, [], ◌∷◌, refl, Bool-cases, inl, inr, length, ◌++◌,
}
use telegram_subscription_ma.Base.Int.{ℤ, int_eq}
use telegram_subscription_ma.Base.Text.{Text}
use telegram_subscription_ma.Db.Models.{User}
use telegram_subscription_ma.Db.Subscriptions.{list_active_or_expiring}
use telegram_subscription_ma.Telegram.{Bot, Settings, in_db, answer, truthy}
use telegram_subscription_ma.Telegram.ReadOnly.{IsReadOnly, bind-IsReadOnly}
use telegram_subscription_ma.Handlers.Chat.{Message}
use telegram_subscription_ma.Handlers.Chunks.{split_into_chunks, telegram_message_limit}
use telegram_subscription_ma.Handlers.Subscribers.{
  Row, load_rows, Tally, empty_tally, nobody_line, summary, resolve_display_name,
  resolve_membership_status, add_membership, report_user, report_rows, send_chunks, report_on,
  admin_subscribers,
}

module _ (bot : Bot) where
  report_user-IsReadOnly :
      (channel : Option Text) (row : Row) (tally : Tally) (user : Option User)
      → IsReadOnly (report_user bot channel row tally user)
  unfolding report_user add_membership resolve_display_name resolve_membership_status
  report_user-IsReadOnly channel row tally none w = refl
  report_user-IsReadOnly none row tally (some u) w = refl
  report_user-IsReadOnly (some channel) row tally (some u) w = refl

  report_rows-IsReadOnly :
      (channel : Option Text) (rows : List Row) (tally : Tally)
      → IsReadOnly (report_rows bot channel rows tally)
  unfolding report_rows
  report_rows-IsReadOnly channel [] tally = λ w. refl
  report_rows-IsReadOnly channel (row ∷ rows) tally =
      bind-IsReadOnly (report_user bot channel row tally row.user) (report_rows bot channel rows)
        (report_user-IsReadOnly channel row tally row.user) (report_rows-IsReadOnly channel rows)

  send_chunks-IsReadOnly :
      (chat : ℤ) (chunks : List Text) → IsReadOnly (send_chunks bot chat chunks)
  unfolding send_chunks
  send_chunks-IsReadOnly chat [] = λ w. refl
  send_chunks-IsReadOnly chat (chunk ∷ chunks) =
      bind-IsReadOnly (answer bot chat chunk) (λ _. send_chunks bot chat chunks) (λ w. refl)
        (λ _. send_chunks-IsReadOnly chat chunks)

  report_on-IsReadOnly :
      (channel : Option Text) (message : Message) (rows : List Row)
      → IsReadOnly (report_on bot channel message rows)
  unfolding report_on
  report_on-IsReadOnly channel message rows =
      bind-IsReadOnly (report_rows bot channel rows (empty_tally channel))
        (λ tally. send_chunks bot message.chat (
          split_into_chunks telegram_message_limit
            (tally.lines ++ nobody_line rows ++ summary channel (length rows) tally)))
        (report_rows-IsReadOnly channel rows (empty_tally channel))
        (λ tally. send_chunks-IsReadOnly message.chat _)

  pub admin_subscribers-IsReadOnly :
      (settings : Settings) (message : Message)
      → IsReadOnly (admin_subscribers settings bot message)
  unfolding admin_subscribers load_rows list_active_or_expiring
  admin_subscribers-IsReadOnly settings message w =
      elim (Bool-cases (int_eq message.from_user.id settings.admin_id)) [
        | inl admin ↦ rw admin (
            bind-IsReadOnly (in_db load_rows) (report_on bot (truthy settings.channel_id) message)
              (λ w. refl) (report_on-IsReadOnly (truthy settings.channel_id) message) w)
        | inr other ↦ rw other refl
      ]
