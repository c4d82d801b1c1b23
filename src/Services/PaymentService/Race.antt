-- ===== src/Services/PaymentService/Race.antt =====
-- `_activate_subscription` of app/services/payment_service.py while other transactions commit. The
-- engine of app/db/session.py keeps PostgreSQL's default, READ COMMITTED, under which each statement
-- sees what has been committed before it; an activation locks neither the user nor the live row.
use telegram_subscription_ma.Base.{
  ℕ, ◌+◌, ◌≡◌, refl, ap, ◌∙◌, sym, subst, false, Option, none, some, [], ◌∷◌, arith, find, first,
  any_row, order_by,
}
use telegram_subscription_ma.Base.Int.{ℤ}
use telegram_subscription_ma.Base.Text.{Text}
use telegram_subscription_ma.Base.Rows.{put, has_key, put_absent, find-put_self, find-key}
use telegram_subscription_ma.Base.Action.{Result, ok, pure, modify, ◌>>=◌, ◌>>◌}
use telegram_subscription_ma.Db.Models.{pending, active, User, Subscription, Database}
use telegram_subscription_ma.Db.Exceptions.{Exception, Query}
use telegram_subscription_ma.Db.Users
use telegram_subscription_ma.Db.Subscriptions
use telegram_subscription_ma.Db.Subscriptions.{live_rows, later_expiry, KeepsLocked}
use telegram_subscription_ma.Db.Payments
use telegram_subscription_ma.Db.Payments.{has_ref}
use telegram_subscription_ma.Db.Invariant.{IsValid, subscription_key}
use telegram_subscription_ma.Db.Laws.{update_status_lem, set_last_warning_lem, put-put}
use telegram_subscription_ma.Services.PaymentService.{
  compute_renewed_expires_at, record_and_activate, activate, find_or_create_subscription,
}
use telegram_subscription_ma.Services.PaymentService.Renewal.{
  thirty_days_more, renewed, activate_lem, can_activate, compute_renewed_expires_at_lem,
}

-- The body of the transaction; `others` is what other transactions commit between the lookup of the
-- live row and the statements after it. The session writes the columns that differ from what it has
-- read, so this is for others that leave that row as it is or renew it.
unfoldable pub record_and_activate_racing :
    (Database → Database) → ℕ → ℤ → Text → Text → ℕ → Text → Query (Option Subscription)
record_and_activate_racing others now telegram_id provider provider_ref amount currency = do
  user ← Users.get_or_create now telegram_id
  live ← Subscriptions.get_active_or_expiring_for_user user.id
  modify others
  subscription ← elim live [
    | some s ↦ pure s
    | none ↦ Subscriptions.create now user.id none pending
  ]
  payment ← Payments.create now subscription.id provider provider_ref amount currency
  activated ← activate now subscription
  pure (some activated)

-- With nothing in between it is `record_and_activate`.
record_and_activate_racing-alone :
    (now : ℕ) (telegram_id : ℤ) (provider provider_ref : Text) (amount : ℕ) (currency : Text)
    (db : Database)
    → record_and_activate_racing (λ d. d) now telegram_id provider provider_ref amount currency db
      ≡ record_and_activate now telegram_id provider provider_ref amount currency db
unfolding record_and_activate_racing record_and_activate find_or_create_subscription
    Subscriptions.get_active_or_expiring_for_user
record_and_activate_racing-alone now t provider provider_ref amount currency db = refl

-- The row `t` after it is activated by way of `s`, a row that was read before.
abbrev pub renewed_stale : ℕ → Subscription → Subscription → Subscription
renewed_stale now s t = record t {
  status = active;
  expires_at = some (compute_renewed_expires_at now s.expires_at);
  last_warning_days_left = none;
}

activate_stale :
    (now : ℕ) (s t : Subscription) (db : Database)
    → t.id ≡ s.id
    → find (has_key subscription_key s.id) db.subscriptions ≡ some t
    → activate now s db ≡ (
      ok (renewed_stale now s t),
      record db { subscriptions = put subscription_key (renewed_stale now s t) db.subscriptions },
    )
unfolding activate
activate_stale now s t db same found =
    let e = compute_renewed_expires_at now s.expires_at in
    let t1 : Subscription = record t { status = active; expires_at = some e } in
    let db1 : Database = record db { subscriptions = put subscription_key t1 db.subscriptions } in
    let own : find (has_key subscription_key t.id) db.subscriptions ≡ some t =
      subst (λ k. find (has_key subscription_key k) db.subscriptions ≡ some t) (sym same) found in
    ground (
      arith,
      update_status_lem t active (some e) db own (can_activate t.status),
      set_last_warning_lem t1 none db1 (find-put_self subscription_key t1 t db.subscriptions own),
      put-put t1 (renewed_stale now s t) db.subscriptions refl,
    )

module _ (others : Database → Database) (now : ℕ) (telegram_id : ℤ) (provider provider_ref : Text)
    (amount : ℕ) (currency : Text) (db : Database) (u : User)
    (registered : Users.get_or_create now telegram_id db ≡ (ok u, db)) (v : IsValid (others db))
    (fresh : any_row (has_ref provider provider_ref) (others db).payments ≡ false) where
  abbrev racing : Result Exception (Option Subscription) × Database
  racing =
      record_and_activate_racing others now telegram_id provider provider_ref amount currency db

  abbrev with_payment : ℕ → Database → Database
  with_payment id d = record d {
    payments =
        record {
          id = d.next_payment_id;
          subscription_id = id;
          provider = provider;
          provider_ref = provider_ref;
          amount = amount;
          currency = currency;
          created_at = now;
        }
        ∷ d.payments;
    next_payment_id = d.next_payment_id + 1;
  }

  abbrev placeholder : Subscription
  placeholder = record {
    id = (others db).next_subscription_id;
    user_id = u.id;
    status = pending;
    expires_at = none;
    last_warning_days_left = none;
    created_at = now;
  }

  abbrev with_placeholder : Database
  with_placeholder = with_payment placeholder.id (record (others db) {
    subscriptions = placeholder ∷ (others db).subscriptions;
    next_subscription_id = (others db).next_subscription_id + 1;
  })

  placed :
      first (order_by later_expiry (live_rows u.id db)) ≡ none
      → racing ≡ (
        ok (some (renewed now placeholder)),
        record with_placeholder {
          subscriptions =
              put subscription_key (renewed now placeholder) with_placeholder.subscriptions;
        },
      )
  unfolding record_and_activate_racing Subscriptions.get_active_or_expiring_for_user
      Subscriptions.create Payments.create
  placed absent = ground (
    arith,
    registered,
    absent,
    fresh,
    activate_lem now placeholder with_placeholder (ground arith),
  )

  -- A registered payer with no live row pays, and before the new row is inserted other transactions
  -- leave the payer one live row `s`, in a valid database in which this reference is fresh: then the
  -- payment commits, and the payer has two live rows, of which the new one runs thirty days from
  -- now, whatever `s` had been paid for.
  pub two_live_rows :
      (s : Subscription)
      → live_rows u.id db ≡ []
      → live_rows u.id (others db) ≡ s ∷ []
      → (new : Subscription) × (racing.0 ≡ ok (some new))
        × (live_rows u.id racing.1 ≡ new ∷ s ∷ [])
        × (new.expires_at ≡ some (thirty_days_more now none))
  unfolding order_by
  two_live_rows s idle other =
      let done = placed (ap (λ l. first (order_by later_expiry l)) idle) in
      let untouched =
        put_absent subscription_key (renewed now placeholder) placeholder.id
          (others db).subscriptions v.subscriptions_keyed (omega arith) in
      (
        renewed now placeholder,
        ap (λ r. r.0) done,
        ap (λ r. live_rows u.id r.1) done ∙ ground (arith, untouched, other),
        ap some (compute_renewed_expires_at_lem now none),
      )

  kept :
      (s t : Subscription)
      → first (order_by later_expiry (live_rows u.id db)) ≡ some s
      → find (has_key subscription_key s.id) (others db).subscriptions ≡ some t
      → racing ≡ (
        ok (some (renewed_stale now s t)),
        record (with_payment s.id (others db)) {
          subscriptions = put subscription_key (renewed_stale now s t) (others db).subscriptions;
        },
      )
  unfolding record_and_activate_racing Subscriptions.get_active_or_expiring_for_user Payments.create
  kept s t live met =
      let same = find-key subscription_key s.id t (others db).subscriptions met in
      ground (
        arith,
        registered,
        live,
        fresh,
        activate_stale now s t (with_payment s.id (others db)) same met,
      )

  -- A payer with a live row `s` pays, and before the payment is written other transactions renew that
  -- row until `e`, in a valid database in which this reference is fresh: then the payment commits, and
  -- the row expires thirty days after what `s` said, or after now. What the others had added is lost.
  pub renewal_lost :
      (s : Subscription) (e : ℕ)
      → first (order_by later_expiry (live_rows u.id db)) ≡ some s
      → find (has_key subscription_key s.id) (others db).subscriptions
        ≡ some (record s { status = active; expires_at = some e; last_warning_days_left = none })
      → (r : Subscription) × (racing.0 ≡ ok (some r))
        × (find (has_key subscription_key s.id) racing.1.subscriptions ≡ some r)
        × (r.expires_at ≡ some (thirty_days_more now s.expires_at))
  renewal_lost s e live met =
      let t : Subscription = record s {
        status = active;
        expires_at = some e;
        last_warning_days_left = none;
      } in
      let done = kept s t live met in
      (
        renewed_stale now s t,
        ap (λ r. r.0) done,
        ap (λ r. find (has_key subscription_key s.id) r.1.subscriptions) done
            ∙ find-put_self subscription_key (renewed_stale now s t) t (others db).subscriptions
                met,
        ap some (compute_renewed_expires_at_lem now s.expires_at),
      )
