-- ===== src/Handlers/Subscribers/Tallies.antt =====
-- The numbers in the report of /subscribers in app/handlers.py.
use telegram_subscription_ma.Base.{ℕ, ◌+◌, ◌≤◌, ◌≡◌, List, [], ◌∷◌, length}
use telegram_subscription_ma.Base.Text.{Text}
use telegram_subscription_ma.Handlers.Subscribers.{Tally}

-- The counts of all providers together.
abbrev pub total : List (Text × ℕ) → ℕ
total [] = 0
total ((provider, n) ∷ counts) = n + total counts

-- How `t'` follows on `t` by `n` rows.
abbrev pub IsAhead : ℕ → Tally → Tally → Type 0
IsAhead n t t' =
    (total t'.provider_counts ≡ total t.provider_counts + n)
    × (length t'.lines ≡ length t.lines + n)
    × (t'.in_channel_count + t'.not_in_channel_count
        ≤ t.in_channel_count + t.not_in_channel_count + n)
