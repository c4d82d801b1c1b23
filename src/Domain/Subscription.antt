-- ===== src/Domain/Subscription.antt =====
-- app/domain/subscription.py: the state machine of a subscription.
pub mod Paths
use telegram_subscription_ma.Base.{Bool, List, [], ◌∷◌, any_row, if◌then◌else◌}
use telegram_subscription_ma.Base.Action.{Result, ok, err}
use telegram_subscription_ma.Db.Models.{
  SubscriptionStatus, pending, active, expiring, expired, kicked, status_eq, Subscription,
}
use telegram_subscription_ma.Db.Exceptions.{Exception, invalid_transition}

-- `TRANSITIONS.get(from_status, frozenset())`
abbrev pub transitions : SubscriptionStatus → List SubscriptionStatus
transitions pending = active ∷ []
transitions active = expiring ∷ active ∷ []
transitions expiring = active ∷ expired ∷ []
transitions expired = active ∷ kicked ∷ []
transitions kicked = active ∷ []

unfoldable pub can_transition : SubscriptionStatus → SubscriptionStatus → Bool
can_transition from_status to_status = any_row (status_eq to_status) (transitions from_status)

unfoldable pub transition : Subscription → SubscriptionStatus → Result Exception Subscription
unfolding can_transition
transition subscription to_status =
    if can_transition subscription.status to_status
    then ok (record subscription { status = to_status })
    else err (invalid_transition subscription.status to_status)
