-- ===== src/Db/Invariant.antt =====
-- What the schema of app/db/models.py and the migrations hold of every database that the program
-- works on, with the rule that the renewal logic adds: a user has one live subscription at most.
use telegram_subscription_ma.Base.{
  All, not, is_some, ℕ, ◌≤◌, ◌≡◌, refl, Bool, true, false, Bool-cases, inl, inr, none, some, List,
  [], ◌∷◌, arith, length, where_rows, any_row, first, any_row-where_rows, if◌then◌else◌,
}
use telegram_subscription_ma.Base.Int.{ℤ, int_eq_iff}
use telegram_subscription_ma.Base.Rows.{Below}
use telegram_subscription_ma.Base.Action.{ok}
use telegram_subscription_ma.Db.Models.{pending, status_eq, User, Subscription, Payment, Database}
use telegram_subscription_ma.Db.Users.{has_telegram_id, scalar_one_or_none}
use telegram_subscription_ma.Db.Subscriptions.{live_rows}
use telegram_subscription_ma.Db.Payments.{has_ref}

abbrev pub user_key : User → ℕ
user_key u = u.id

abbrev pub subscription_key : Subscription → ℕ
subscription_key s = s.id

abbrev pub payment_key : Payment → ℕ
payment_key p = p.id

-- `users.telegram_id` is unique.
abbrev pub TelegramUnique : List User → Type 0
TelegramUnique [] = Unit {0}
TelegramUnique (u ∷ us) = (any_row (has_telegram_id u.telegram_id) us ≡ false) × TelegramUnique us

-- uq_payments_provider_provider_ref
abbrev pub RefsUnique : List Payment → Type 0
RefsUnique [] = Unit {0}
RefsUnique (p ∷ ps) = (any_row (has_ref p.provider p.provider_ref) ps ≡ false) × RefsUnique ps

abbrev pub OneLive : Database → Type 0
OneLive db = (user_id : ℕ) → length (live_rows user_id db) ≤ 1

-- A row has an expiry from its first activation on, and no placeholder has one.
abbrev pub is_dated : Subscription → Bool
is_dated s = if status_eq s.status pending then not (is_some s.expires_at) else is_some s.expires_at

pub record IsValid (db : Database) : Type 0 where
  pub users_keyed : Below user_key db.next_user_id db.users
  pub subscriptions_keyed : Below subscription_key db.next_subscription_id db.subscriptions
  pub payments_keyed : Below payment_key db.next_payment_id db.payments
  pub telegram_unique : TelegramUnique db.users
  pub refs_unique : RefsUnique db.payments
  pub one_live : OneLive db
  pub dated : All (λ s. is_dated s ≡ true) db.subscriptions

-- Under the unique index a user is read without MultipleResultsFound.
pub scalar_one_or_none_lem :
    (t : ℤ) (us : List User)
    → TelegramUnique us
    → scalar_one_or_none (where_rows (has_telegram_id t) us)
      ≡ ok (first (where_rows (has_telegram_id t) us))
unfolding scalar_one_or_none
scalar_one_or_none_lem t [] h = refl
scalar_one_or_none_lem t (u ∷ us) h = elim (Bool-cases (has_telegram_id t u)) [
  | inl hit ↦
      let same = (int_eq_iff u.telegram_id t).0 hit in
      rw (hit, any_row-where_rows (has_telegram_id t) us (rw same at h.0))
  | inr miss ↦ rw miss (scalar_one_or_none_lem t us h.1)
]

pub first-where_rows-true :
    {A : Type 0} (q : A → Bool) (x : A) (xs : List A)
    → first (where_rows q xs) ≡ some x
    → q x ≡ true
first-where_rows-true q x [] e = cc
first-where_rows-true q x (y ∷ ys) e = ground (arith, first-where_rows-true q x ys)

pub where_rows-any_row :
    {A : Type 0} (q : A → Bool) (xs : List A)
    → first (where_rows q xs) ≡ none
    → any_row q xs ≡ false
where_rows-any_row q [] e = refl
where_rows-any_row q (y ∷ ys) e = ground (arith, where_rows-any_row q ys)
