-- ===== src/Tests/Warnings.antt =====
-- The theorems about whole runs of app/jobs/expiration_warnings.py at concrete inputs.
use telegram_subscription_ma.Base.{◌≡◌, refl, map, arith}
use telegram_subscription_ma.Base.Action.{ok}
use telegram_subscription_ma.Jobs.ExpirationWarnings.{run_expiration_warnings}
use telegram_subscription_ma.Jobs.ExpirationWarnings.Runs.{unmarked}
use telegram_subscription_ma.Jobs.ExpirationWarnings.Runs.Sweep.{
  warned_if_due, run_expiration_warnings_lem,
}
use telegram_subscription_ma.Migrations.{upgrade}
use telegram_subscription_ma.Migrations.Silence.{upgrade-run_expiration_warnings}
use telegram_subscription_ma.Tests.Data.{noon, shop}
use telegram_subscription_ma.Tests.Jobs.{obliging, quiet_world, expiring_world}

run_expiration_warnings_lem_example :
    let (r, w') = run_expiration_warnings obliging noon quiet_world in
    (r ≡ ok tt)
    × (w'.database ≡ record shop { subscriptions = w'.database.subscriptions })
    × (map unmarked w'.database.subscriptions
        ≡ map (warned_if_due noon) (map unmarked shop.subscriptions))
run_expiration_warnings_lem_example =
    run_expiration_warnings_lem obliging noon 3 quiet_world (omega arith)

-- The migration finds Anna warned.
upgrade-run_expiration_warnings_example :
    let w = record expiring_world { database = upgrade noon expiring_world.database } in
    run_expiration_warnings obliging noon w ≡ (ok tt, w)
upgrade-run_expiration_warnings_example =
    upgrade-run_expiration_warnings obliging noon expiring_world.database
      (record expiring_world { database = upgrade noon expiring_world.database })
      (λ due. absurd (cc due), (λ due. refl, tt)) refl
