-- ===== src/Handlers/Questions/Limited.antt =====
-- How often a sender may ask the admin, in app/handlers.py.
use telegram_subscription_ma.Base.{
  ℕ, ◌+◌, ◌<◌, ◌≤◌, ◌≡◌, refl, ap, subst, true, Bool-cases, Option-cases, inl, inr, Option, none,
  some, List, [], ◌∷◌, arith, where_rows, any_row-where_rows, first, find, length, ltb,
}
use telegram_subscription_ma.Base.Int.{ℤ, int_eq_iff}
use telegram_subscription_ma.Base.Rows.{put, has_key, where-put_one}
use telegram_subscription_ma.Base.Sorted.{In, In-where_rows, first-In, find-In}
use telegram_subscription_ma.Base.Action.{ok}
use telegram_subscription_ma.Db.Models.{User, Database}
use telegram_subscription_ma.Db.Users
use telegram_subscription_ma.Db.Users.{has_telegram_id, fits_integer}
use telegram_subscription_ma.Db.Invariant.{IsValid, TelegramUnique, user_key}
use telegram_subscription_ma.Db.Laws.{
  new_user, with_new_user, get_or_create_new, get_or_create_found,
}
use telegram_subscription_ma.Db.Preservation.{get_or_create-IsValid}
use telegram_subscription_ma.Db.Preservation.LastQuestion.{set_last_question_at-IsValid}
use telegram_subscription_ma.Domain.RateLimit.{question_cooldown, minutes_until_allowed}
use telegram_subscription_ma.Domain.RateLimit.Cooldown.{minutes_until_allowed_least}
use telegram_subscription_ma.Telegram.{send_message, send_menu, Bot, Settings, World}
use telegram_subscription_ma.Keyboards.{main_menu}
use telegram_subscription_ma.Handlers.Chat.{Message, Waiting, Chat}
use telegram_subscription_ma.Handlers.Questions.{
  too_soon_text, admin_message, thanks_text, refuse_question, thank, forward_question,
  unless_too_soon, receive_question,
}

-- The row of the sender with this id.
abbrev pub sender : ℤ → Database → Option User
sender t db = first (where_rows (has_telegram_id t) db.users)

-- When the sender asked last, if ever.
abbrev pub last_asked : ℤ → Database → Option ℕ
last_asked t db = elim (sender t db) [ none ↦ none | some u ↦ u.last_question_at ]

unique_sender :
    (t : ℤ) (us : List User) → TelegramUnique us → length (where_rows (has_telegram_id t) us) ≤ 1
unique_sender t [] h = omega arith
unique_sender t (u ∷ us) h = elim (Bool-cases (has_telegram_id t u)) [
  | inl hit ↦
      let same = (int_eq_iff u.telegram_id t).0 hit in
      rw (hit, any_row-where_rows (has_telegram_id t) us (rw same at h.0)) (omega arith)
  | inr miss ↦ rw miss (unique_sender t us h.1)
]

-- A user who is stored, after the moment of the question is.
abbrev asked_at : ℕ → User → User
asked_at moment u = record u { last_question_at = some moment }

abbrev with_user : User → Database → Database
with_user u db = record db { users = put user_key u db.users }

module _ (t : ℤ) (u : User) (moment : ℕ) (db : Database) (v : IsValid db) (listed : In u db.users)
    (same : u.telegram_id ≡ t) where
  stored : find (has_key user_key u.id) db.users ≡ some u
  stored = find-In user_key db.next_user_id u db.users v.users_keyed listed

  set_last_question_at_lem :
      Users.set_last_question_at u.id moment db
      ≡ (ok (asked_at moment u), with_user (asked_at moment u) db)
  unfolding Users.set_last_question_at
  set_last_question_at_lem = ground (arith, stored)

  sender_asked : sender t (with_user (asked_at moment u) db) ≡ some (asked_at moment u)
  sender_asked =
      let hit : has_telegram_id t u ≡ true = (int_eq_iff u.telegram_id t).1 same in
      ap first (
        where-put_one user_key (has_telegram_id t) (asked_at moment u) u db.next_user_id db.users
          v.users_keyed stored hit hit (unique_sender t db.users v.telegram_unique))

module _ (settings : Settings) (bot : Bot) where
  -- A registered sender whose last question is less than the cooldown ago is told how long to wait;
  -- the admin is told nothing and the database does not change.
  pub receive_question_too_soon :
      (now sent_at at : ℕ) (message : Message) (u : User) (c : Chat)
      → IsValid c.world.database
      → fits_integer message.from_user.id ≡ true
      → sender message.from_user.id c.world.database ≡ some u
      → u.last_question_at ≡ some at
      → now < at + question_cooldown
      → let minutes = minutes_until_allowed now (some at) question_cooldown in
        (receive_question settings bot now sent_at message c).1.world ≡ record c.world {
          calls = send_menu message.chat (too_soon_text minutes) main_menu ∷ c.world.calls;
        }
  unfolding receive_question unless_too_soon refuse_question
  receive_question_too_soon now sent_at at message u c v fits found last soon =
      let e = get_or_create_found now message.from_user.id c.world.database u v fits found in
      let positive : ltb 0 (minutes_until_allowed now (some at) question_cooldown) ≡ true =
        let least = minutes_until_allowed_least now at question_cooldown 0 in
        ground (arith, least) in
      ground (arith, e, last, positive)

  -- The question of a sender who is found or created as `u`, and who has asked none within the cooldown.
  module _ (now sent_at : ℕ) (message : Message) (c : Chat) (u : User) (db1 : Database)
      (e : Users.get_or_create now message.from_user.id c.world.database ≡ (ok u, db1))
      (v : IsValid db1) (listed : In u db1.users) (same : u.telegram_id ≡ message.from_user.id)
      (allowed : minutes_until_allowed now u.last_question_at question_cooldown ≡ 0) where
    abbrev forwarded : World
    forwarded = record {
      database = with_user (asked_at sent_at u) db1;
      calls =
          send_menu message.chat thanks_text main_menu
          ∷ send_message settings.admin_id (admin_message message)
          ∷ c.world.calls;
    }

    stored_moment :
        Users.set_last_question_at u.id sent_at db1
        ≡ (ok (asked_at sent_at u), with_user (asked_at sent_at u) db1)
    stored_moment = set_last_question_at_lem message.from_user.id u sent_at db1 v listed same

    forwarded_lem : (receive_question settings bot now sent_at message c).1.world ≡ forwarded
    unfolding receive_question unless_too_soon forward_question thank
    forwarded_lem = ground (arith, e, allowed, stored_moment)

    forwarded-IsValid : IsValid forwarded.database
    forwarded-IsValid =
        subst (λ r. IsValid r.1) stored_moment (set_last_question_at-IsValid u.id sent_at db1 v)

    refused_next :
        (later next_sent_at : ℕ) (next : Message) (state : Option Waiting)
        → fits_integer message.from_user.id ≡ true
        → next.from_user.id ≡ message.from_user.id
        → later < sent_at + question_cooldown
        → let minutes = minutes_until_allowed later (some sent_at) question_cooldown in
          (receive_question settings bot later next_sent_at next
            (record { world = forwarded; state = state })).1.world
          ≡ record forwarded {
            calls = send_menu next.chat (too_soon_text minutes) main_menu ∷ forwarded.calls;
          }
    refused_next later nsa next state fits sender' soon =
        receive_question_too_soon later nsa sent_at next (asked_at sent_at u)
          (record { world = forwarded; state = state }) forwarded-IsValid (rw sender' fits)
          (rw sender' (sender_asked message.from_user.id u sent_at db1 v listed same)) refl soon

    limited :
        (later next_sent_at : ℕ) (next : Message) (state : Option Waiting)
        → fits_integer message.from_user.id ≡ true
        → next.from_user.id ≡ message.from_user.id
        → later < sent_at + question_cooldown
        → let w' = (receive_question settings bot now sent_at message c).1.world in
          let minutes = minutes_until_allowed later (some sent_at) question_cooldown in
          (w'.calls
            ≡ send_menu message.chat thanks_text main_menu
              ∷ send_message settings.admin_id (admin_message message)
              ∷ c.world.calls)
          × IsValid w'.database
          × ((receive_question settings bot later next_sent_at next
                (record { world = w'; state = state })).1.world
              ≡ record w' {
                calls = send_menu next.chat (too_soon_text minutes) main_menu ∷ w'.calls;
              })
    limited later nsa next state fits sender' soon =
        rw forwarded_lem
          (refl, forwarded-IsValid, refused_next later nsa next state fits sender' soon)

  -- A sender whose id the column holds and who has asked nothing within the cooldown, registered or
  -- not, is thanked and the admin is told, with one message each, and the database stays valid. The
  -- sender's next question, if it comes within the cooldown of that moment, is not put to the
  -- admin: it is answered with the time to wait, and changes nothing in the database.
  pub question_limited :
      (now sent_at : ℕ) (message : Message) (c : Chat) (later next_sent_at : ℕ) (next : Message)
      (state : Option Waiting)
      → IsValid c.world.database
      → fits_integer message.from_user.id ≡ true
      → minutes_until_allowed now
          (last_asked message.from_user.id c.world.database)
          question_cooldown
        ≡ 0
      → next.from_user.id ≡ message.from_user.id
      → later < sent_at + question_cooldown
      → let w' = (receive_question settings bot now sent_at message c).1.world in
        let minutes = minutes_until_allowed later (some sent_at) question_cooldown in
        (w'.calls
          ≡ send_menu message.chat thanks_text main_menu
            ∷ send_message settings.admin_id (admin_message message)
            ∷ c.world.calls)
        × IsValid w'.database
        × ((receive_question settings bot later next_sent_at next
              (record { world = w'; state = state })).1.world
            ≡ record w' {
              calls = send_menu next.chat (too_soon_text minutes) main_menu ∷ w'.calls;
            })
  question_limited now sent_at message c later nsa next state v fits allowed sender' soon =
      let t = message.from_user.id in
      let db = c.world.database in
      elim (Option-cases (sender t db)) [
        | inl absent ↦
            let h =
              subst (λ r. IsValid r.1) (get_or_create_new now t db v fits absent)
                (get_or_create-IsValid now t db v) in
            limited now sent_at message c (new_user now t db) (with_new_user now t db)
              (get_or_create_new now t db v fits absent) h (inl refl) refl
              (unfold minutes_until_allowed in refl) later nsa next state fits sender' soon
        | inr (u, found) ↦
            let (listed, hit) =
              In-where_rows (has_telegram_id t) u db.users
                (first-In u (where_rows (has_telegram_id t) db.users) found) in
            limited now sent_at message c u db (get_or_create_found now t db u v fits found) v
              listed ((int_eq_iff u.telegram_id t).0 hit) (rw (found, last_asked) at allowed) later
              nsa next state fits sender' soon
      ]
