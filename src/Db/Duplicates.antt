-- ===== src/Db/Duplicates.antt =====
-- The report of main.py at start-up on users with several live subscriptions, from
-- app/db/repositories.py.
use telegram_subscription_ma.Base.{
  ℕ, ◌+◌, ◌≤◌, ◌≡◌, ◌↔◌, refl, ap, Bool, List, [], ◌∷◌, ◌++◌, arith, where_rows, length, ltb, ◌==◌,
  ◌&&◌, if◌then◌else◌,
}
use telegram_subscription_ma.Base.Action.{ok}
use telegram_subscription_ma.Db.Models.{Subscription, Database}
use telegram_subscription_ma.Db.Subscriptions.{
  is_live, add_to_group, group_by_user, list_users_with_multiple_live_subscriptions,
}
use telegram_subscription_ma.Db.Invariant.{OneLive}

abbrev Groups : Type 0
Groups = List (ℕ × List ℕ)

-- How many ids the groups of a user hold, all together and in the first of them.
abbrev total : ℕ → Groups → ℕ
total u [] = 0
total u ((k, ids) ∷ groups) = (if k == u then length ids else 0) + total u groups

abbrev first_total : ℕ → Groups → ℕ
first_total u [] = 0
first_total u ((k, ids) ∷ groups) = if k == u then length ids else first_total u groups

abbrev counts : ℕ → ℕ → ℕ
counts v u = if v == u then 1 else 0

length-snoc : (i : ℕ) (ids : List ℕ) → length (ids ++ i ∷ []) ≡ length ids + 1
length-snoc i [] = refl
length-snoc i (j ∷ ids) = omega (arith, length-snoc i ids)

total-add_to_group :
    (v i u : ℕ) (groups : Groups) → total u (add_to_group v i groups) ≡ total u groups + counts v u
unfolding add_to_group
total-add_to_group v i u [] = ground arith
total-add_to_group v i u ((k, ids) ∷ groups) =
    ground (arith, total-add_to_group v i u groups, length-snoc i ids)

first_total-add_to_group :
    (v i u : ℕ) (groups : Groups)
    → first_total u (add_to_group v i groups) ≡ first_total u groups + counts v u
unfolding add_to_group
first_total-add_to_group v i u [] = ground arith
first_total-add_to_group v i u ((k, ids) ∷ groups) =
    ground (arith, first_total-add_to_group v i u groups, length-snoc i ids)

-- How many of the rows are a user's.
abbrev rows_of : ℕ → List Subscription → ℕ
rows_of u rows = length (where_rows (λ s. s.user_id == u) rows)

total-group_by_user :
    (u : ℕ) (rows : List Subscription) (groups : Groups)
    → total u (group_by_user groups rows) ≡ total u groups + rows_of u rows
unfolding group_by_user
total-group_by_user u [] groups = omega arith
total-group_by_user u (s ∷ rows) groups =
    let rest = total-group_by_user u rows (add_to_group s.user_id s.id groups) in
    ground (arith, rest, total-add_to_group s.user_id s.id u groups)

first_total-group_by_user :
    (u : ℕ) (rows : List Subscription) (groups : Groups)
    → first_total u (group_by_user groups rows) ≡ first_total u groups + rows_of u rows
unfolding group_by_user
first_total-group_by_user u [] groups = omega arith
first_total-group_by_user u (s ∷ rows) groups =
    let rest = first_total-group_by_user u rows (add_to_group s.user_id s.id groups) in
    ground (arith, rest, first_total-add_to_group s.user_id s.id u groups)

rows_of-live :
    (u : ℕ) (rows : List Subscription)
    → rows_of u (where_rows is_live rows)
      ≡ length (where_rows (λ s. (s.user_id == u) && is_live s) rows)
rows_of-live u [] = refl
rows_of-live u (s ∷ rows) = ground (arith, rows_of-live u rows)

abbrev is_multiple : ℕ × List ℕ → Bool
is_multiple g = ltb 1 (length g.1)

nothing_multiple :
    (groups : Groups) → ((u : ℕ) → total u groups ≤ 1) → where_rows is_multiple groups ≡ []
nothing_multiple [] h = refl
nothing_multiple ((k, ids) ∷ groups) h =
    let own : length ids + total k groups ≤ 1 = ground (arith, h k) in
    let rest = nothing_multiple groups (λ u. ground (arith, h u)) in ground (arith, own, rest)

all_single :
    (groups : Groups) (u : ℕ) → where_rows is_multiple groups ≡ [] → first_total u groups ≤ 1
all_single [] u h = omega arith
all_single ((k, ids) ∷ groups) u h = ground (arith, h, all_single groups u)

-- The report is empty exactly if nobody has more than one live subscription, which is what the renewal
-- logic keeps; it never raises and only reads.
pub list_users_with_multiple_live_subscriptions-iff-OneLive :
    (db : Database) → (list_users_with_multiple_live_subscriptions db ≡ (ok [], db)) ↔ OneLive db
unfolding list_users_with_multiple_live_subscriptions
list_users_with_multiple_live_subscriptions-iff-OneLive db =
    let rows = where_rows is_live db.subscriptions in
    let groups = group_by_user [] rows in
    (
      λ e u.
          let empty : where_rows is_multiple groups ≡ [] = cc e in
          let single = all_single groups u empty in
          omega
            (arith, single, first_total-group_by_user u rows [], rows_of-live u db.subscriptions),
      λ one.
          ap (λ (l : Groups). (ok l, db))
            (nothing_multiple groups λ u.
              omega (arith, one u, total-group_by_user u rows [], rows_of-live u db.subscriptions)),
    )
