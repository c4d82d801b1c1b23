-- ===== src/Domain/Subscription/Paths.antt =====
-- The state machine of app/domain/subscription.py as a step relation, and what every history of a
-- subscription has in common.
use telegram_subscription_ma.Base.{◌≡◌, ◌↔◌, refl, true, arith, ℕ, suc, ◌+◌, ◌≤◌}
use telegram_subscription_ma.Db.Models.{
  SubscriptionStatus, pending, active, expiring, expired, kicked,
}
use telegram_subscription_ma.Domain.Subscription.{can_transition}

-- The documented life of a subscription: a payment activates it from any state, and without one it
-- is warned, runs out and is removed, one state at a time.
pub data Step : SubscriptionStatus → SubscriptionStatus → Type 0 where
  pay : (s : SubscriptionStatus) → Step s active
  warn : Step active expiring
  run_out : Step expiring expired
  remove : Step expired kicked

pub data Reach (s : SubscriptionStatus) : SubscriptionStatus → Type 0 where
  here : Reach s s
  next : {t u : SubscriptionStatus} → Reach s t → Step t u → Reach s u

Step-allowed : {s t : SubscriptionStatus} → Step s t → can_transition s t ≡ true
unfolding can_transition
Step-allowed (pay pending) = refl
Step-allowed (pay active) = refl
Step-allowed (pay expiring) = refl
Step-allowed (pay expired) = refl
Step-allowed (pay kicked) = refl
Step-allowed warn = refl
Step-allowed run_out = refl
Step-allowed remove = refl

allowed-Step : (s t : SubscriptionStatus) → can_transition s t ≡ true → Step s t
unfolding can_transition
allowed-Step s active h = pay s
allowed-Step active expiring h = warn
allowed-Step expiring expired h = run_out
allowed-Step expired kicked h = remove
allowed-Step pending pending h = cc
allowed-Step pending expiring h = cc
allowed-Step pending expired h = cc
allowed-Step pending kicked h = cc
allowed-Step active pending h = cc
allowed-Step active expired h = cc
allowed-Step active kicked h = cc
allowed-Step expiring pending h = cc
allowed-Step expiring expiring h = cc
allowed-Step expiring kicked h = cc
allowed-Step expired pending h = cc
allowed-Step expired expiring h = cc
allowed-Step expired expired h = cc
allowed-Step kicked pending h = cc
allowed-Step kicked expiring h = cc
allowed-Step kicked expired h = cc
allowed-Step kicked kicked h = cc

-- `can_transition` allows exactly the steps of the documented life.
pub can_transition-iff-Step : (s t : SubscriptionStatus) → (can_transition s t ≡ true) ↔ Step s t
can_transition-iff-Step s t = (allowed-Step s t, Step-allowed)

-- How far a state is from a paid one.
rank : SubscriptionStatus → ℕ
rank pending = 0
rank active = 0
rank expiring = 1
rank expired = 2
rank kicked = 3

pub steps : {s t : SubscriptionStatus} → Reach s t → ℕ
steps here = 0
steps (next r st) = suc (steps r)

Step-rank : {s t : SubscriptionStatus} → Step s t → rank t ≤ rank s + 1
unfolding rank
Step-rank (pay s) = omega arith
Step-rank warn = omega arith
Step-rank run_out = omega arith
Step-rank remove = omega arith

Reach-rank : {s t : SubscriptionStatus} (r : Reach s t) → rank t ≤ rank s + steps r
unfolding steps
Reach-rank here = omega arith
Reach-rank (next r st) = omega (arith, Reach-rank r, Step-rank st)

-- However a subscription gets from paid to removed, it takes at least three transitions: none of
-- the states between can be jumped over.
pub removal_takes_three_steps : (r : Reach active kicked) → 3 ≤ steps r
unfolding rank
removal_takes_three_steps r = omega (arith, Reach-rank r)

-- No history leads back to `pending`: a subscription that is pending has never been anything else.
pub Reach-pending : {s : SubscriptionStatus} → Reach s pending → s ≡ pending
Reach-pending here = refl
Reach-pending (next r st) = absurd (not_to_pending st)
  where
    not_to_pending : {t : SubscriptionStatus} → Step t pending → ⊥
    not_to_pending st = elim st [ ]
