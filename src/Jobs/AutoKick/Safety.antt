-- ===== src/Jobs/AutoKick/Safety.antt =====
-- What app/jobs/auto_kick.py does to people: invariants of the recorded Bot API calls, over every
-- database, every run and every way in which Telegram may answer.
use telegram_subscription_ma.Base.{
  ℕ, ◌≡◌, false, Bool-cases, inl, inr, Option, none, some, List, [], ◌∷◌,
}
use telegram_subscription_ma.Base.Int.{ℤ}
use telegram_subscription_ma.Base.Action.{pure, ◌>>=◌}
use telegram_subscription_ma.Base.Action.Keeps.{Keeps, Keeps-bind, Keeps-catch}
use telegram_subscription_ma.Db.Models.{User, Subscription}
use telegram_subscription_ma.Db.Exceptions.{Exception, invalid_transition}
use telegram_subscription_ma.Db.Users
use telegram_subscription_ma.Db.Subscriptions
use telegram_subscription_ma.Telegram.{Call, send_message, Bot, Settings, World, in_db}
use telegram_subscription_ma.Jobs.AutoKick.{
  kicked_text, remove_from_channel, find_other_live_subscription, send_notice,
  unless_live_elsewhere, try_advance, close_access, after_kick, advance_to_kicked,
  skip_invalid_transition, kick_one, kick_each, run_auto_kick,
}

-- What holds of the calls, and is kept by a removal from the channel and by the notice of it, is
-- kept by the whole job.
module _ (settings : Settings) (bot : Bot) (P : List Call → Type 0)
    (removal : (t : ℤ) (w : World) → P w.calls → P (remove_from_channel settings bot t w).1.calls)
    (notice : (t : ℤ) (h : List Call)
      → settings.dry_run_kick ≡ false
      → P h
      → P (send_message t kicked_text ∷ h)) where
  abbrev OnCalls : World → Type 0
  OnCalls w = P w.calls

  notice-Keeps : (t : ℤ) → Keeps OnCalls (send_notice settings bot t)
  unfolding send_notice
  notice-Keeps t w h = elim (Bool-cases settings.dry_run_kick) [
    | inl dry ↦ rw dry h
    | inr real ↦ rw real (notice t w.calls real h)
  ]

  unless-Keeps :
      (u : User) (other : Option Subscription)
      → Keeps OnCalls (unless_live_elsewhere settings bot u other)
  unfolding unless_live_elsewhere
  unless-Keeps u (some s) = λ w h. h
  unless-Keeps u none =
      Keeps-bind OnCalls (remove_from_channel settings bot u.telegram_id)
        (λ _. send_notice settings bot u.telegram_id) (removal u.telegram_id)
        (λ _. notice-Keeps u.telegram_id)

  close_access-Keeps :
      (now : ℕ) (found : Option User) → Keeps OnCalls (close_access settings bot now found)
  unfolding close_access
  close_access-Keeps now none = λ w h. h
  close_access-Keeps now (some u) =
      Keeps-bind OnCalls (in_db (find_other_live_subscription now u.id))
        (unless_live_elsewhere settings bot u) (λ w h. h) (unless-Keeps u)

  after_kick-Keeps :
      (now : ℕ) (row : Option Subscription) → Keeps OnCalls (after_kick settings bot now row)
  unfolding after_kick
  after_kick-Keeps now none = λ w h. h
  after_kick-Keeps now (some s) =
      Keeps-bind OnCalls (in_db (Users.get_by_id s.user_id)) (close_access settings bot now)
        (λ w h. h) (close_access-Keeps now)

  skip-Keeps : (e : Exception) → Keeps OnCalls (skip_invalid_transition e)
  unfolding skip_invalid_transition
  skip-Keeps (invalid_transition from to) w h = h
  skip-Keeps e w h = h

  try_advance-Keeps : (s : Subscription) → Keeps OnCalls (try_advance s)
  unfolding try_advance
  try_advance-Keeps s =
      Keeps-catch OnCalls (in_db (advance_to_kicked s.id s.status) >>= λ row. pure (some row))
        skip_invalid_transition
        (Keeps-bind OnCalls (in_db (advance_to_kicked s.id s.status)) (λ row. pure (some row))
          (λ w h. h) (λ row w h. h))
        skip-Keeps

  kick_one-Keeps : (now : ℕ) (s : Subscription) → Keeps OnCalls (kick_one settings bot now s)
  unfolding kick_one
  kick_one-Keeps now s =
      Keeps-bind OnCalls (try_advance s) (after_kick settings bot now) (try_advance-Keeps s)
        (after_kick-Keeps now)

  kick_each-Keeps :
      (now : ℕ) (rows : List Subscription) → Keeps OnCalls (kick_each settings bot now rows)
  unfolding kick_each
  kick_each-Keeps now [] = λ w h. h
  kick_each-Keeps now (s ∷ rest) =
      Keeps-bind OnCalls (kick_one settings bot now s) (λ _. kick_each settings bot now rest)
        (kick_one-Keeps now s) (λ _. kick_each-Keeps now rest)

  pub run_auto_kick-Keeps : (now : ℕ) → Keeps OnCalls (run_auto_kick settings bot now)
  unfolding run_auto_kick
  run_auto_kick-Keeps now =
      Keeps-bind OnCalls (in_db (Subscriptions.list_expired now)) (kick_each settings bot now)
        (λ w h. h) (kick_each-Keeps now)
