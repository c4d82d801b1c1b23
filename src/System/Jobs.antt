-- ===== src/System/Jobs.antt =====
-- app/jobs as sequences of the steps of System.
use telegram_subscription_ma.Base.{
  ℕ, Bool, true, false, Option, none, some, List, [], ◌∷◌, refl, sym, subst, not, if◌then◌else◌,
  leb, ◌&&◌,
}
use telegram_subscription_ma.Base.Text.{Text}
use telegram_subscription_ma.Base.Action.{Result, lift, pure, raise, catch, ◌>>=◌, ◌>>◌}
use telegram_subscription_ma.Base.Action.Keeps.{Keeps, Keeps-bind, Keeps-catch, Keeps-if}
use telegram_subscription_ma.Db.Models.{
  SubscriptionStatus, active, expiring, expired, kicked, status_eq, User, Subscription, Database,
}
use telegram_subscription_ma.Db.Exceptions.{Exception, invalid_transition, type_error}
use telegram_subscription_ma.Db.Users
use telegram_subscription_ma.Db.Subscriptions
use telegram_subscription_ma.Domain.Time.{days_remaining}
use telegram_subscription_ma.Telegram.{Bot, Settings, World, in_db, call}
use telegram_subscription_ma.Jobs.AutoKick.{
  advance_to_kicked, skip_invalid_transition, try_advance, after_kick, kick_one, kick_each,
  run_auto_kick,
}
use telegram_subscription_ma.Jobs.AutoKick.Outcome.{after_kick-IsQuiet}
use telegram_subscription_ma.Jobs.ExpirationWarnings.{
  reminder, warning_window_days, record_warning, text_for, deliver, already_warned, remind,
  skip_lost_race, begin_expiring, warn_with, warn_one, warn_each, run_expiration_warnings,
}
use telegram_subscription_ma.System.{Reach, next, move, mark}
use telegram_subscription_ma.System.Clients.{OnWorld}

module _ (db0 : Database) where
  abbrev P : Database → Type 0
  P = Reach db0

  advance-Keeps : (id : ℕ) (status : SubscriptionStatus) → Keeps P (advance_to_kicked id status)
  unfolding advance_to_kicked
  advance-Keeps id current =
      let warn = Subscriptions.update_status id expiring none >> pure expiring in
      let first = if status_eq current active then warn else pure current in
      let expire = λ (status : SubscriptionStatus).
        if status_eq status expiring
        then Subscriptions.update_status id expired none >> pure tt
        else pure tt in
      Keeps-bind P first (λ status. expire status >> Subscriptions.update_status id kicked none)
        (Keeps-if P (status_eq current active) warn (pure current)
          (Keeps-bind P (Subscriptions.update_status id expiring none) (λ _. pure expiring)
            (λ db h. next h (move id expiring refl refl)) (λ _ db h. h))
          (λ db h. h))
        λ status.
          Keeps-bind P (expire status) (λ _. Subscriptions.update_status id kicked none)
            (Keeps-if P (status_eq status expiring)
              (Subscriptions.update_status id expired none >> pure tt) (pure tt)
              (Keeps-bind P (Subscriptions.update_status id expired none) (λ _. pure tt)
                (λ db h. next h (move id expired refl refl)) (λ _ db h. h))
              (λ db h. h))
            (λ _ db h. next h (move id kicked refl refl))

  skip-Keeps : (e : Exception) → Keeps (OnWorld (Reach db0)) (skip_invalid_transition e)
  unfolding skip_invalid_transition
  skip-Keeps (invalid_transition from to) w h = h
  skip-Keeps e w h = h

  lost_race-Keeps : (e : Exception) → Keeps (OnWorld (Reach db0)) (skip_lost_race e)
  unfolding skip_lost_race
  lost_race-Keeps (invalid_transition from to) w h = h
  lost_race-Keeps e w h = h

  try_advance-Keeps : (s : Subscription) → Keeps (OnWorld (Reach db0)) (try_advance s)
  unfolding try_advance
  try_advance-Keeps s =
      let walk = in_db (advance_to_kicked s.id s.status) in
      Keeps-catch (OnWorld (Reach db0)) (walk >>= λ row. pure (some row)) skip_invalid_transition
        (Keeps-bind (OnWorld (Reach db0)) walk (λ row. pure (some row))
          (λ w h. advance-Keeps s.id s.status w.database h) (λ row w h. h))
        skip-Keeps

  module _ (settings : Settings) (bot : Bot) (now : ℕ) where
    after_kick-Keeps :
        (row : Option Subscription) → Keeps (OnWorld (Reach db0)) (after_kick settings bot now row)
    after_kick-Keeps row w h = subst P (sym (after_kick-IsQuiet settings bot now row w).1) h

    kick_each-Keeps :
        (rows : List Subscription) → Keeps (OnWorld (Reach db0)) (kick_each settings bot now rows)
    unfolding kick_each kick_one
    kick_each-Keeps [] = λ w h. h
    kick_each-Keeps (s ∷ rest) =
        Keeps-bind (OnWorld (Reach db0)) (kick_one settings bot now s)
          (λ _. kick_each settings bot now rest)
          (Keeps-bind (OnWorld (Reach db0)) (try_advance s) (after_kick settings bot now)
            (try_advance-Keeps s) after_kick-Keeps)
          (λ _. kick_each-Keeps rest)

    pub run_auto_kick-Keeps : Keeps (OnWorld (Reach db0)) (run_auto_kick settings bot now)
    unfolding run_auto_kick Subscriptions.list_expired
    run_auto_kick-Keeps =
        Keeps-bind (OnWorld (Reach db0)) (in_db (Subscriptions.list_expired now))
          (kick_each settings bot now) (λ w h. h) kick_each-Keeps

  module _ (bot : Bot) where
    record_warning-Keeps :
        (row : Subscription) (days_left : ℕ) (delivered : Bool)
        → Keeps (OnWorld (Reach db0)) (record_warning row days_left delivered)
    unfolding record_warning
    record_warning-Keeps row days_left true =
        Keeps-bind (OnWorld (Reach db0))
          (in_db (Subscriptions.set_last_warning_days_left row.id (some days_left))) (λ _. pure tt)
          (λ w h. next h (mark row.id (some days_left) refl)) (λ _ w h. h)
    record_warning-Keeps row days_left false = λ w h. h

    deliver-Keeps :
        (row : Subscription) (days_left : ℕ) (user : Option User)
        → Keeps (OnWorld (Reach db0)) (deliver bot row days_left user)
    unfolding deliver
    deliver-Keeps row days_left none = λ w h. h
    deliver-Keeps row days_left (some user) =
        let send =
          λ (text : Text). call (reminder user text) (λ h. bot.accepts h (reminder user text)) in
        Keeps-bind (OnWorld (Reach db0)) (lift (text_for row days_left))
          (λ text. send text >>= record_warning row days_left) (λ w h. h)
          λ text.
            Keeps-bind (OnWorld (Reach db0)) (send text) (record_warning row days_left) (λ w h. h)
              (record_warning-Keeps row days_left)

    remind-Keeps :
        (days_left : ℕ) (row : Option Subscription)
        → Keeps (OnWorld (Reach db0)) (remind bot days_left row)
    unfolding remind Users.get_by_id
    remind-Keeps days_left none = λ w h. h
    remind-Keeps days_left (some row) =
        let find = in_db (Users.get_by_id row.user_id) in
        Keeps-if (OnWorld (Reach db0)) (already_warned days_left row.last_warning_days_left)
          (pure tt) (find >>= deliver bot row days_left) (λ w h. h)
          (Keeps-bind (OnWorld (Reach db0)) find (deliver bot row days_left) (λ w h. h)
            (deliver-Keeps row days_left))

    begin_expiring-Keeps : (s : Subscription) → Keeps (OnWorld (Reach db0)) (begin_expiring s)
    unfolding begin_expiring
    begin_expiring-Keeps s =
        let warn = in_db (Subscriptions.update_status s.id expiring none) in
        let wrapped = warn >>= λ (row : Subscription). pure (some row) in
        Keeps-if (OnWorld (Reach db0)) (status_eq s.status active) (catch wrapped skip_lost_race)
          (pure (some s))
          (Keeps-catch (OnWorld (Reach db0)) wrapped skip_lost_race
            (Keeps-bind (OnWorld (Reach db0)) warn (λ row. pure (some row))
              (λ w h. next h (move s.id expiring refl refl)) (λ row w h. h))
            lost_race-Keeps)
          (λ w h. h)

    warn_with-Keeps :
        (s : Subscription) (days_left : ℕ) → Keeps (OnWorld (Reach db0)) (warn_with bot s days_left)
    unfolding warn_with
    warn_with-Keeps s days_left =
        Keeps-if (OnWorld (Reach db0)) (not (leb 1 days_left && leb days_left warning_window_days))
          (pure tt) (begin_expiring s >>= remind bot days_left) (λ w h. h)
          (Keeps-bind (OnWorld (Reach db0)) (begin_expiring s) (remind bot days_left)
            (begin_expiring-Keeps s) (remind-Keeps days_left))

    warn_at-Keeps :
        (now : ℕ) (s : Subscription) (expires_at : Option ℕ)
        → Keeps
            (OnWorld (Reach db0))
            (elim expires_at as (λ _. World → Result Exception (Unit {0}) × World) [
              | none ↦ raise type_error
              | some e ↦ warn_with bot s (days_remaining now e)
            ])
    warn_at-Keeps now s none = λ w h. h
    warn_at-Keeps now s (some e) = warn_with-Keeps s (days_remaining now e)

    warn_each-Keeps :
        (now : ℕ) (rows : List Subscription) → Keeps (OnWorld (Reach db0)) (warn_each bot now rows)
    unfolding warn_each warn_one
    warn_each-Keeps now [] = λ w h. h
    warn_each-Keeps now (s ∷ rest) =
        Keeps-bind (OnWorld (Reach db0)) (warn_one bot now s) (λ _. warn_each bot now rest)
          (warn_at-Keeps now s s.expires_at) (λ _. warn_each-Keeps now rest)

    pub run_expiration_warnings-Keeps :
        (now : ℕ) → Keeps (OnWorld (Reach db0)) (run_expiration_warnings bot now)
    unfolding run_expiration_warnings Subscriptions.list_expiring_within
    run_expiration_warnings-Keeps now =
        Keeps-bind (OnWorld (Reach db0))
          (in_db (Subscriptions.list_expiring_within now warning_window_days)) (warn_each bot now)
          (λ w h. h) (warn_each-Keeps now)
