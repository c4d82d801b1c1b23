-- ===== src/Services/PaymentService/Renewal.antt =====
-- `_compute_renewed_expires_at`, `_find_or_create_subscription` and `_activate` of
-- app/services/payment_service.py, as effects on one row.
use telegram_subscription_ma.Base.{
  subst, ap, ◌∙◌, ℕ, ◌+◌, ◌≡◌, refl, true, Bool-cases, Option-cases, inl, inr, Option, none, some,
  List, [], ◌∷◌, arith, length, first, find, ◌⊎◌, ◌==◌, ◌&&◌, ==_iff, ◌≢◌, order_by, ltb,
  if◌then◌else◌,
}
use telegram_subscription_ma.Base.Rows.{Below, put, has_key, find-put_self, count-put}
use telegram_subscription_ma.Base.Sorted.{
  first-In, In-order_by, In-where_rows, find-In, first-order_by-none,
}
use telegram_subscription_ma.Base.Action.{ok}
use telegram_subscription_ma.Db.Models.{
  SubscriptionStatus, pending, active, expiring, expired, kicked, Subscription, Database,
}
use telegram_subscription_ma.Db.Subscriptions
use telegram_subscription_ma.Db.Subscriptions.{is_live, live_rows, later_expiry}
use telegram_subscription_ma.Db.Invariant.{IsValid, subscription_key, OneLive}
use telegram_subscription_ma.Db.Laws.{update_status_lem, set_last_warning_lem, put-put}
use telegram_subscription_ma.Domain.Subscription.{can_transition}
use telegram_subscription_ma.Services.PaymentService.{
  compute_renewed_expires_at, activate, find_or_create_subscription,
}

-- The rule of a renewal, in microseconds: thirty days on top of what is paid for and not used up,
-- from now on where nothing is.
abbrev pub thirty_days_more : ℕ → Option ℕ → ℕ
thirty_days_more now none = now + 2592000000000
thirty_days_more now (some e) = if ltb now e then e + 2592000000000 else now + 2592000000000

pub compute_renewed_expires_at_lem :
    (now : ℕ) (current : Option ℕ)
    → compute_renewed_expires_at now current ≡ thirty_days_more now current
unfolding compute_renewed_expires_at
compute_renewed_expires_at_lem now none = ground arith
compute_renewed_expires_at_lem now (some e) = ground arith

-- The row that a payment leaves.
abbrev pub renewed : ℕ → Subscription → Subscription
renewed now s = record s {
  status = active;
  expires_at = some (compute_renewed_expires_at now s.expires_at);
  last_warning_days_left = none;
}

pub can_activate : (s : SubscriptionStatus) → can_transition s active ≡ true
unfolding can_transition
can_activate pending = refl
can_activate active = refl
can_activate expiring = refl
can_activate expired = refl
can_activate kicked = refl

-- `_activate` succeeds from every state, and rewrites the one row.
pub activate_lem :
    (now : ℕ) (s : Subscription) (db : Database)
    → find (has_key subscription_key s.id) db.subscriptions ≡ some s
    → activate now s db ≡ (
      ok (renewed now s),
      record db { subscriptions = put subscription_key (renewed now s) db.subscriptions },
    )
unfolding activate
activate_lem now s db found =
    let e = compute_renewed_expires_at now s.expires_at in
    let s1 : Subscription = record s { status = active; expires_at = some e } in
    let db1 : Database = record db { subscriptions = put subscription_key s1 db.subscriptions } in
    ground (
      arith,
      update_status_lem s active (some e) db found (can_activate s.status),
      set_last_warning_lem s1 none db1 (find-put_self subscription_key s1 s db.subscriptions found),
      put-put s1 (renewed now s) db.subscriptions refl,
    )

-- What the query for a live row gives.
pub live_first :
    (db : Database) (n user_id : ℕ) (s : Subscription)
    → Below subscription_key n db.subscriptions
    → first (order_by later_expiry (live_rows user_id db)) ≡ some s
    → (find (has_key subscription_key s.id) db.subscriptions ≡ some s)
      × (s.user_id ≡ user_id)
      × (is_live s ≡ true)
live_first db n user_id s b e =
    let (m, q) =
      In-where_rows _ s db.subscriptions
        (In-order_by later_expiry s (live_rows user_id db) (first-In s _ e)) in
    (find-In subscription_key n s db.subscriptions b m, ground arith, ground arith)

-- Until when a user has paid: the expiry of the live row that the query picks.
abbrev pub latest_expiry : List Subscription → Option ℕ
latest_expiry rows = elim (first (order_by later_expiry rows)) [
  | none ↦ none
  | some s ↦ s.expires_at
]

abbrev pub paid_until : ℕ → Database → Option ℕ
paid_until user_id db = latest_expiry (live_rows user_id db)

-- What `_find_or_create_subscription` leaves: a row of the user, live or the only candidate.
pub record HasTarget (user_id : ℕ) (db : Database) (s : Subscription) (db' : Database)
    : Type 0 where
  pub valid : IsValid db'
  pub stored : find (has_key subscription_key s.id) db'.subscriptions ≡ some s
  pub owner : s.user_id ≡ user_id
  pub candidate : (is_live s ≡ true) ⊎ (live_rows s.user_id db' ≡ [])
  pub same_expiry : s.expires_at ≡ paid_until user_id db
  pub same_users : db'.users ≡ db.users
  pub same_payments : db'.payments ≡ db.payments
  pub same_payment_id : db'.next_payment_id ≡ db.next_payment_id
  pub others :
      (k : ℕ)
      → k ≢ s.id
      → find (has_key subscription_key k) db'.subscriptions
        ≡ find (has_key subscription_key k) db.subscriptions

abbrev placeholder : ℕ → ℕ → Database → Subscription
placeholder now user_id db = record {
  id = db.next_subscription_id;
  user_id = user_id;
  status = pending;
  expires_at = none;
  last_warning_days_left = none;
  created_at = now;
}

abbrev with_placeholder : ℕ → ℕ → Database → Database
with_placeholder now user_id db = record db {
  subscriptions = placeholder now user_id db ∷ db.subscriptions;
  next_subscription_id = db.next_subscription_id + 1;
}

live_rows-with_placeholder :
    (now user_id u : ℕ) (db : Database)
    → live_rows u (with_placeholder now user_id db) ≡ live_rows u db
live_rows-with_placeholder now user_id u db = ground arith

with_placeholder-HasTarget :
    (now user_id : ℕ) (db : Database)
    → IsValid db
    → first (order_by later_expiry (live_rows user_id db)) ≡ none
    → HasTarget user_id db (placeholder now user_id db) (with_placeholder now user_id db)
with_placeholder-HasTarget now user_id db v absent = record {
  valid = record {
    users_keyed = v.users_keyed;
    subscriptions_keyed = (omega arith, v.subscriptions_keyed);
    payments_keyed = v.payments_keyed;
    telegram_unique = v.telegram_unique;
    refs_unique = v.refs_unique;
    one_live = λ u. rw (live_rows-with_placeholder now user_id u db) (v.one_live u);
    dated = (refl, v.dated);
  };
  stored = ground arith;
  owner = refl;
  candidate = inr (
      live_rows-with_placeholder now user_id user_id db
      ∙ first-order_by-none later_expiry (live_rows user_id db) absent);
  same_expiry = ground arith;
  same_users = refl;
  same_payments = refl;
  same_payment_id = refl;
  others = λ k ne. ground arith;
}

pub find_or_create_lem :
    (now user_id : ℕ) (db : Database)
    → IsValid db
    → (s : Subscription) × (db' : Database) × (find_or_create_subscription now user_id db
        ≡ (ok s, db'))
      × HasTarget user_id db s db'
unfolding find_or_create_subscription Subscriptions.get_active_or_expiring_for_user
    Subscriptions.create
find_or_create_lem now user_id db v =
    elim (Option-cases (first (order_by later_expiry (live_rows user_id db)))) [
      | inl absent ↦ (
        placeholder now user_id db,
        with_placeholder now user_id db,
        ground arith,
        with_placeholder-HasTarget now user_id db v absent,
      )
      | inr (s, found) ↦
          let (stored, owner, live) =
            live_first db db.next_subscription_id user_id s v.subscriptions_keyed found in
          (
            s,
            db,
            ground arith,
            record {
              valid = v;
              stored = stored;
              owner = owner;
              candidate = inl live;
              same_expiry = ground arith;
              same_users = refl;
              same_payments = refl;
              same_payment_id = refl;
              others = λ k ne. refl;
            },
          )
    ]

-- A payment on the user's live row, or on some row of a user with none, leaves one live row.
pub renewed-OneLive :
    (now n : ℕ) (s : Subscription) (db : Database)
    → Below subscription_key n db.subscriptions
    → OneLive db
    → find (has_key subscription_key s.id) db.subscriptions ≡ some s
    → (is_live s ≡ true) ⊎ (live_rows s.user_id db ≡ [])
    → OneLive (record db { subscriptions = put subscription_key (renewed now s) db.subscriptions })
renewed-OneLive now n s db b one found (inl live) u =
    let q = λ (t : Subscription). (t.user_id == u) && is_live t in
    ground (arith, one u, count-put subscription_key q (renewed now s) s n db.subscriptions b found)
renewed-OneLive now n s db b one found (inr idle) u =
    let q = λ (t : Subscription). (t.user_id == u) && is_live t in
    let count = count-put subscription_key q (renewed now s) s n db.subscriptions b found in
    elim (Bool-cases (s.user_id == u)) [
      | inl same ↦
          let none_before : live_rows u db ≡ [] =
            subst (λ w. live_rows w db ≡ []) ((==_iff s.user_id u).0 same) idle in
          ground (arith, count, ap length none_before)
      | inr other ↦ ground (arith, one u, count)
    ]
