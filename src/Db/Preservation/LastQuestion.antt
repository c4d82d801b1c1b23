-- ===== src/Db/Preservation/LastQuestion.antt =====
-- `UserRepository.set_last_question_at` of app/db/repositories.py keeps a database valid.
use telegram_subscription_ma.Base.{
  ℕ, ◌≡◌, refl, sym, ap, ◌∙◌, subst, Bool-cases, Option-cases, inl, inr, some, List, [], ◌∷◌, arith,
  find, any_row,
}
use mathlib.Core.Option.{some-injective}
use telegram_subscription_ma.Base.Int.{ℤ}
use telegram_subscription_ma.Base.Rows.{Below, put, put_absent, has_key, find-key, put-Below}
use telegram_subscription_ma.Db.Models.{User, Database}
use telegram_subscription_ma.Db.Users
use telegram_subscription_ma.Db.Users.{has_telegram_id, fits_integer}
use telegram_subscription_ma.Db.Invariant.{IsValid, TelegramUnique, user_key}

-- A user who is rewritten under the same ids.
any_row-put_user :
    (t : ℤ) (u old : User) (n : ℕ) (us : List User)
    → Below user_key n us
    → find (has_key user_key u.id) us ≡ some old
    → u.telegram_id ≡ old.telegram_id
    → any_row (has_telegram_id t) (put user_key u us) ≡ any_row (has_telegram_id t) us
any_row-put_user t u old n [] b found same = refl
any_row-put_user t u old n (w ∷ us) b found same =
    ground (
      arith,
      any_row-put_user t u old (user_key w) us b.1,
      put_absent user_key u (user_key w) us b.1,
    )

put_user-TelegramUnique :
    (u old : User) (n : ℕ) (us : List User)
    → Below user_key n us
    → find (has_key user_key u.id) us ≡ some old
    → u.telegram_id ≡ old.telegram_id
    → TelegramUnique us
    → TelegramUnique (put user_key u us)
put_user-TelegramUnique u old n [] b found same h = tt
put_user-TelegramUnique u old n (w ∷ us) b found same h =
    elim (Bool-cases (has_key user_key u.id w)) [
      | inl hit ↦
          let absent = put_absent user_key u w.id us b.1 (ground arith) in
          let owner : w ≡ old = some-injective w old (rw hit at found) in
          let id_kept : u.telegram_id ≡ w.telegram_id =
            same ∙ ap (λ x. x.telegram_id) (sym owner) in
          rw hit (
            ap (any_row (has_telegram_id u.telegram_id)) absent
                ∙ ap (λ t. any_row (has_telegram_id t) us) id_kept
                ∙ h.0,
            subst TelegramUnique (sym absent) h.1,
          )
      | inr miss ↦ rw miss (
        any_row-put_user w.telegram_id u old w.id us b.1 (ground arith) same ∙ h.0,
        put_user-TelegramUnique u old w.id us b.1 (ground arith) same h.1,
      )
    ]

pub set_last_question_at-IsValid :
    (id moment : ℕ) (db : Database)
    → IsValid db
    → IsValid (Users.set_last_question_at id moment db).1
set_last_question_at-IsValid id moment db v =
    elim (Option-cases (find (has_key user_key id) db.users)) [
      | inl absent ↦
          let same : (Users.set_last_question_at id moment db).1 ≡ db =
            unfold Users.set_last_question_at in ground arith in
          subst IsValid (sym same) v
      | inr (u, found) ↦
          let same_id : u.id ≡ id = find-key user_key id u db.users found in
          let u' : User = record u { last_question_at = some moment } in
          let stored =
            subst (λ k. find (has_key user_key k) db.users ≡ some u) (sym same_id) found in
          let written : (Users.set_last_question_at id moment db).1
              ≡ record db { users = put user_key u' db.users } =
            unfold Users.set_last_question_at in ground (arith, found) in
          subst IsValid (sym written) (record {
            users_keyed = put-Below user_key u' db.next_user_id db.users v.users_keyed;
            subscriptions_keyed = v.subscriptions_keyed;
            payments_keyed = v.payments_keyed;
            telegram_unique =
                put_user-TelegramUnique u' u db.next_user_id db.users v.users_keyed stored refl
                  v.telegram_unique;
            refs_unique = v.refs_unique;
            one_live = v.one_live;
            dated = v.dated;
          })
    ]
