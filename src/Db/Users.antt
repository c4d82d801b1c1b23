-- ===== src/Db/Users.antt =====
-- `UserRepository` of app/db/repositories.py. Each call joins the caller's transaction or is one of
-- its own; either way it is a coroutine over the database. The column `users.telegram_id` is unique and
-- of the type INTEGER, which `Mapped[int]` and the first migration declare: a parameter that it
-- cannot hold is refused with a DataError, in a WHERE as in an INSERT.
use telegram_subscription_ma.Base.{
  ℕ, ◌+◌, ◌==◌, Bool, Option, none, some, List, [], ◌∷◌, if◌then◌else◌, where_rows, any_row, find,
  update_rows, first, ltb, not,
}
use telegram_subscription_ma.Base.Int.{ℤ, pos, negsuc, int_eq}
use telegram_subscription_ma.Base.Action.{
  Result, ok, err, pure, raise, gets, lift, modify, catch, ◌>>=◌, ◌>>◌,
}
use telegram_subscription_ma.Db.Models.{User, Database}
use telegram_subscription_ma.Db.Exceptions.{
  Exception, value_error, integrity_error, data_error, multiple_results_found, Query,
}

abbrev pub has_telegram_id : ℤ → User → Bool
has_telegram_id telegram_id u = int_eq u.telegram_id telegram_id

-- The 32 bits of PostgreSQL's INTEGER.
abbrev pub fits_integer : ℤ → Bool
fits_integer (pos n) = ltb n 2_147_483_648
fits_integer (negsuc n) = ltb n 2_147_483_648

-- `result.scalar_one_or_none()`
unfoldable pub scalar_one_or_none : {A : Type 0} → List A → Result Exception (Option A)
scalar_one_or_none [] = ok none
scalar_one_or_none (x ∷ []) = ok (some x)
scalar_one_or_none (x ∷ y ∷ xs) = err multiple_results_found

-- INSERT INTO users, which the column's type and the unique index may refuse.
unfoldable pub insert_user : ℕ → ℤ → Query User
insert_user now telegram_id db =
    let user : User = record {
      id = db.next_user_id;
      telegram_id = telegram_id;
      created_at = now;
      last_question_at = none;
    } in
    if not (fits_integer telegram_id)
    then (err data_error, db)
    else if any_row (has_telegram_id telegram_id) db.users
    then (err integrity_error, db)
    else (ok user, record db { users = user ∷ db.users; next_user_id = db.next_user_id + 1 })

unfoldable pub get_by_telegram_id : ℤ → Query (Option User)
get_by_telegram_id telegram_id =
    if fits_integer telegram_id
    then (gets (λ db. where_rows (has_telegram_id telegram_id) db.users) >>= λ rows.
        lift (scalar_one_or_none rows))
    else raise data_error

-- The handler of `get_or_create`'s IntegrityError: read the winner's row, or raise again.
winner : ℤ → Exception → Query User
winner telegram_id integrity_error = do
  rows ← gets (λ db. where_rows (has_telegram_id telegram_id) db.users)
  elim (first rows) [ none ↦ raise integrity_error | some u ↦ pure u ]
winner telegram_id e = raise e

-- `get_or_create`, where `others` is what other connections commit between the SELECT and the
-- INSERT of this one. The SAVEPOINT around the INSERT undoes nothing: a refused INSERT has written
-- nothing.
unfoldable pub get_or_create_racing : (Database → Database) → ℕ → ℤ → Query User
unfolding winner
get_or_create_racing others now telegram_id = do
  found ← get_by_telegram_id telegram_id
  elim found [
    | some u ↦ pure u
    | none ↦ modify others >> catch (insert_user now telegram_id) (winner telegram_id)
  ]

unfoldable pub get_or_create : ℕ → ℤ → Query User
unfolding get_or_create_racing
get_or_create = get_or_create_racing (λ db. db)

unfoldable pub get_by_id : ℕ → Query (Option User)
get_by_id user_id = gets (λ db. find (λ u. u.id == user_id) db.users)

unfoldable pub set_last_question_at : ℕ → ℕ → Query User
unfolding get_by_id
set_last_question_at user_id moment = do
  found ← get_by_id user_id
  elim found [
    | none ↦ raise value_error
    | some u ↦
        let user : User = record u { last_question_at = some moment } in
        (modify λ db. record db { users = update_rows (λ v. v.id == user_id) (λ _. user) db.users })
        >> pure user
  ]
