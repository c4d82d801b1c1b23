-- ===== src/Services/PaymentService/Settlement.antt =====
-- How `confirm_manual_payment` of app/services/payment_service.py settles a payment, on the live row or on
-- the placeholder.
use telegram_subscription_ma.Base.{
  ℕ, ◌≡◌, ◌≢◌, refl, sym, ap, ◌∙◌, subst, true, false, inl, inr, none, some, List, [], ◌∷◌, arith,
  find, first, any_row, where_rows, update_rows, order_by, ◌⊎◌, ◌==◌,
}
use mathlib.Core.Option.{some-injective}
use telegram_subscription_ma.Base.Rows.{
  Below, put, has_key, find-put_self, find-put_ne, put-Below, put-All, find-All,
}
use telegram_subscription_ma.Base.Sorted.{first-order_by-none}
use telegram_subscription_ma.Base.Text.{Text}
use telegram_subscription_ma.Base.Action.{ok}
use telegram_subscription_ma.Db.Models.{pending, active, Subscription, Payment, Database}
use telegram_subscription_ma.Db.Subscriptions.{is_live, live_rows, later_expiry}
use telegram_subscription_ma.Db.Payments
use telegram_subscription_ma.Db.Payments.{has_ref}
use telegram_subscription_ma.Db.Invariant.{
  IsValid, is_dated, subscription_key, payment_key, RefsUnique,
}
use telegram_subscription_ma.Services.PaymentService.{settle}
use telegram_subscription_ma.Services.PaymentService.Renewal.{
  renewed, activate_lem, renewed-OneLive, live_first, paid_until,
}
use telegram_subscription_ma.Services.PaymentService.Refinement.{accounts, extend, renewed-extends}

-- The payments after those of one subscription are moved to another.
abbrev repointed : ℕ → ℕ → List Payment → List Payment
repointed old new =
    update_rows (λ p. p.subscription_id == old) (λ p. record p { subscription_id = new })

repointed-Below :
    (old new n : ℕ) (ps : List Payment)
    → Below payment_key n ps
    → Below payment_key n (repointed old new ps)
repointed-Below old new n [] b = tt
repointed-Below old new n (p ∷ ps) b = ground (arith, repointed-Below old new p.id ps b.1)

any_row-repointed :
    (provider provider_ref : Text) (old new : ℕ) (ps : List Payment)
    → any_row (has_ref provider provider_ref) (repointed old new ps)
      ≡ any_row (has_ref provider provider_ref) ps
any_row-repointed provider provider_ref old new [] = refl
any_row-repointed provider provider_ref old new (p ∷ ps) =
    ground (arith, any_row-repointed provider provider_ref old new ps)

repointed-RefsUnique :
    (old new : ℕ) (ps : List Payment) → RefsUnique ps → RefsUnique (repointed old new ps)
repointed-RefsUnique old new [] h = tt
repointed-RefsUnique old new (p ∷ ps) h = ground (
  arith,
  repointed-RefsUnique old new ps h.1,
  any_row-repointed p.provider p.provider_ref old new ps,
)

-- After the move no payment is left behind.
repointed-empty :
    (old new : ℕ) (ps : List Payment)
    → new ≢ old
    → where_rows (λ p. p.subscription_id == old) (repointed old new ps) ≡ []
repointed-empty old new [] h = refl
repointed-empty old new (p ∷ ps) h = ground (arith, repointed-empty old new ps h)

-- The payments that belong to a subscription.
abbrev pub payments_of : ℕ → Database → List Payment
payments_of subscription_id db = where_rows (λ p. p.subscription_id == subscription_id) db.payments

-- What a confirmation of the placeholder `p` leaves: `s` is the row that it returned.
pub record Confirmed (now : ℕ) (p : Subscription) (db : Database) (s : Subscription)
    (db' : Database) : Type 0 where
  pub valid : IsValid db'
  pub stored : find (has_key subscription_key s.id) db'.subscriptions ≡ some s
  pub owner : s.user_id ≡ p.user_id
  pub is_active : s.status ≡ active
  pub accounts_extended : accounts db' ≡ extend now p.user_id (accounts db)
  -- The placeholder itself became active, or it stays as it was with no payment of its own.
  pub settled :
      (s.id ≡ p.id)
      ⊎ ((find (has_key subscription_key p.id) db'.subscriptions ≡ some p)
          × (payments_of p.id db' ≡ []))
  pub refs :
      (provider provider_ref : Text)
      → any_row (has_ref provider provider_ref) db'.payments
        ≡ any_row (has_ref provider provider_ref) db.payments

module _ (now n : ℕ) (p : Subscription) (db : Database) (v : IsValid db)
    (found : find (has_key subscription_key p.id) db.subscriptions ≡ some p)
    (is_pending : p.status ≡ pending) where
  placeholder_not_live : is_live p ≡ false
  placeholder_not_live = ground arith

  live_is_other :
      (s : Subscription)
      → find (has_key subscription_key s.id) db.subscriptions ≡ some s
      → is_live s ≡ true
      → s.id ≢ p.id
  live_is_other s stored live same =
      let e : s ≡ p =
        some-injective s p (
          sym stored ∙ ap (λ k. find (has_key subscription_key k) db.subscriptions) same ∙ found) in
      absurd (cc (ap is_live e, live, placeholder_not_live))

  -- With no live row, the placeholder is activated.
  pub settle_placeholder :
      first (order_by later_expiry (live_rows p.user_id db)) ≡ none
      → (s : Subscription) × (db' : Database) × (settle now p none db ≡ (ok s, db'))
        × Confirmed now p db s db'
  unfolding settle
  settle_placeholder absent =
      let idle : live_rows p.user_id db ≡ [] =
        first-order_by-none later_expiry (live_rows p.user_id db) absent in
      let dated : is_dated p ≡ true =
        find-All subscription_key (λ s. is_dated s ≡ true) p.id p db.subscriptions v.dated found in
      let same_expiry : p.expires_at ≡ paid_until p.user_id db = ground arith in
      let one =
        renewed-OneLive now db.next_subscription_id p db v.subscriptions_keyed v.one_live found
          (inr idle) in
      (
        renewed now p,
        record db { subscriptions = put subscription_key (renewed now p) db.subscriptions },
        activate_lem now p db found,
        record {
          valid = record {
            users_keyed = v.users_keyed;
            subscriptions_keyed =
                put-Below subscription_key (renewed now p) db.next_subscription_id db.subscriptions
                  v.subscriptions_keyed;
            payments_keyed = v.payments_keyed;
            telegram_unique = v.telegram_unique;
            refs_unique = v.refs_unique;
            one_live = one;
            dated =
                put-All subscription_key (λ s. is_dated s ≡ true) (renewed now p) db.subscriptions
                  refl v.dated;
          };
          stored = find-put_self subscription_key (renewed now p) p db.subscriptions found;
          owner = refl;
          is_active = refl;
          accounts_extended =
              renewed-extends now db.next_subscription_id p db v.subscriptions_keyed v.one_live
                found (inr idle) same_expiry;
          settled = inl refl;
          refs = λ provider provider_ref. refl;
        },
      )

  -- With a live row, the payment moves to it, and it is renewed.
  pub settle_live :
      (s : Subscription)
      → first (order_by later_expiry (live_rows p.user_id db)) ≡ some s
      → (db' : Database) × (settle now p (some s) db ≡ (ok (renewed now s), db'))
        × Confirmed now p db (renewed now s) db'
  unfolding settle Payments.repoint_subscription
  settle_live s e =
      let (stored, owner, live) =
        live_first db db.next_subscription_id p.user_id s v.subscriptions_keyed e in
      let same_expiry : s.expires_at ≡ paid_until s.user_id db =
        subst (λ u. s.expires_at ≡ paid_until u db) (sym owner) (ground arith) in
      let distinct : s.id ≢ p.id = live_is_other s stored live in
      let moved : Database = record db { payments = repointed p.id s.id db.payments } in
      let one =
        renewed-OneLive now db.next_subscription_id s db v.subscriptions_keyed v.one_live stored
          (inl live) in
      (
        record moved { subscriptions = put subscription_key (renewed now s) db.subscriptions },
        ground (arith, distinct, activate_lem now s moved stored),
        record {
          valid = record {
            users_keyed = v.users_keyed;
            subscriptions_keyed =
                put-Below subscription_key (renewed now s) db.next_subscription_id db.subscriptions
                  v.subscriptions_keyed;
            payments_keyed =
                repointed-Below p.id s.id db.next_payment_id db.payments v.payments_keyed;
            telegram_unique = v.telegram_unique;
            refs_unique = repointed-RefsUnique p.id s.id db.payments v.refs_unique;
            one_live = one;
            dated =
                put-All subscription_key (λ s. is_dated s ≡ true) (renewed now s) db.subscriptions
                  refl v.dated;
          };
          stored = find-put_self subscription_key (renewed now s) s db.subscriptions stored;
          owner = owner;
          is_active = refl;
          accounts_extended =
              subst
                (λ u.
                  accounts (record db {
                    subscriptions = put subscription_key (renewed now s) db.subscriptions;
                  })
                  ≡ extend now u (accounts db))
                owner
                (renewed-extends now db.next_subscription_id s db v.subscriptions_keyed v.one_live
                  stored (inl live) same_expiry);
          settled = inr (
            find-put_ne subscription_key (renewed now s) p.id db.subscriptions
                  (λ same. distinct (sym same))
                ∙ found,
            repointed-empty p.id s.id db.payments distinct,
          );
          refs = λ provider provider_ref.
              any_row-repointed provider provider_ref p.id s.id db.payments;
        },
      )
