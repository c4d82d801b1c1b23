-- ===== src/Db/Payments.antt =====
-- `PaymentRepository` of app/db/repositories.py, as coroutines over the database. The constraint
-- uq_payments_provider_provider_ref holds one row for each (provider, provider_ref).
use telegram_subscription_ma.Base.{
  ℕ, ◌+◌, ◌==◌, leb, Bool, ◌&&◌, Option, ◌∷◌, if◌then◌else◌, where_rows, any_row, update_rows,
  first, order_by,
}
use telegram_subscription_ma.Base.Text.{Text, text_eq}
use telegram_subscription_ma.Base.Action.{ok, err, gets, modify}
use telegram_subscription_ma.Db.Models.{Payment}
use telegram_subscription_ma.Db.Exceptions.{duplicate_payment, Query}

abbrev pub has_ref : Text → Text → Payment → Bool
has_ref provider provider_ref p = text_eq p.provider provider && text_eq p.provider_ref provider_ref

abbrev pub by_id : Payment → Payment → Bool
by_id p q = leb p.id q.id

unfoldable pub get_for_subscription : ℕ → Query (Option Payment)
get_for_subscription subscription_id = gets λ db.
    first (order_by by_id (where_rows (λ p. p.subscription_id == subscription_id) db.payments))

-- `PaymentRepository.create`: the unique constraint refuses a second row of one reference.
unfoldable pub create : ℕ → ℕ → Text → Text → ℕ → Text → Query Payment
create now subscription_id provider provider_ref amount currency db =
    let payment : Payment = record {
      id = db.next_payment_id;
      subscription_id = subscription_id;
      provider = provider;
      provider_ref = provider_ref;
      amount = amount;
      currency = currency;
      created_at = now;
    } in
    if any_row (has_ref provider provider_ref) db.payments
    then (err (duplicate_payment provider provider_ref), db)
    else (
      ok payment,
      record db { payments = payment ∷ db.payments; next_payment_id = db.next_payment_id + 1 },
    )

unfoldable pub repoint_subscription : ℕ → ℕ → Query (Unit {0})
repoint_subscription old_subscription_id new_subscription_id = modify λ db. record db {
  payments =
      update_rows (λ p. p.subscription_id == old_subscription_id)
        (λ p. record p { subscription_id = new_subscription_id }) db.payments;
}

unfoldable pub get_by_provider_ref : Text → Text → Query (Option Payment)
get_by_provider_ref provider provider_ref =
    gets λ db. first (order_by by_id (where_rows (has_ref provider provider_ref) db.payments))
