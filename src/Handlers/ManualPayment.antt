-- ===== src/Handlers/ManualPayment.antt =====
-- Payment by screenshot in app/handlers.py: what `receive_screenshot` records, and which row the
-- button of `confirm_payment` names. The messages are in Handlers/Screenshots.
pub mod Recorded
use telegram_subscription_ma.Base.{
  ℕ, ◌*◌, ◌≡◌, true, ◌==◌, Option, none, some, [], ◌∷◌, ◌++◌, arith, All, if◌then◌else◌, ap, ◌∙◌,
  sym,
}
use telegram_subscription_ma.Base.Int.{ℤ, pos}
use telegram_subscription_ma.Base.Text.{Text, codes}
use telegram_subscription_ma.Base.Numerals.{
  str_nat, str_int, is_digit, int_of, digits-str_nat, int_of-str_int,
}
use telegram_subscription_ma.Base.Action.{Result, ok, err, pure, ◌>>=◌}
use telegram_subscription_ma.Db.Models.{pending, Subscription}
use telegram_subscription_ma.Db.Exceptions.{Exception, value_error, index_error, Query}
use telegram_subscription_ma.Db.Users
use telegram_subscription_ma.Db.Subscriptions
use telegram_subscription_ma.Db.Payments
use telegram_subscription_ma.Keyboards.{confirm_data}
use telegram_subscription_ma.Domain.Pricing.{get_current_price}

-- `f"manual-{user.id}-{message.message_id}"`
abbrev pub manual_ref : ℤ → ℕ → Text
manual_ref user_id message_id = codes "manual-" ++ (str_int user_id ++ b'-' ∷ str_nat message_id)

-- The three repository calls, each committed by itself.
unfoldable pub record_screenshot : ℕ → ℕ → ℤ → ℕ → Query Subscription
record_screenshot now local_now user_id message_id = do
  db_user ← Users.get_or_create now user_id
  subscription ← Subscriptions.create now db_user.id none pending
  payment ←
      Payments.create now subscription.id (codes "manual") (manual_ref user_id message_id)
        (get_current_price local_now * 100) (codes "PLN")
  pure subscription

-- `data.split(':', 1)[1]`, where no colon is an IndexError.
abbrev pub after_colon : Text → Option Text
after_colon [] = none
after_colon (c ∷ s) = if c == b':' then some s else after_colon s

abbrev pub int_or_raise : Option Text → Result Exception ℤ
int_or_raise none = err index_error
int_or_raise (some text) = elim (int_of text) [ none ↦ err value_error | some i ↦ ok i ]

unfoldable pub subscription_id_of : Text → Result Exception ℤ
subscription_id_of callback_data = int_or_raise (after_colon callback_data)

-- The button of a row confirms that row.
pub subscription_id_of-confirm_data :
    (subscription_id : ℕ)
    → subscription_id_of (confirm_data subscription_id) ≡ ok (pos subscription_id)
unfolding subscription_id_of str_int
subscription_id_of-confirm_data id = ground (arith, int_of-str_int (pos id))

dash_splits :
    (s s' t t' : Text)
    → All (λ c. is_digit c ≡ true) s
    → All (λ c. is_digit c ≡ true) s'
    → s ++ b'-' ∷ t ≡ s' ++ b'-' ∷ t'
    → (s ≡ s') × (t ≡ t')
dash_splits [] [] t t' h h' e = ground arith
dash_splits [] (c ∷ s') t t' h h' e = absurd (ground arith)
dash_splits (c ∷ s) [] t t' h h' e = absurd (ground arith)
dash_splits (c ∷ s) (c' ∷ s') t t' h h' e = ground (arith, dash_splits s s' t t' h.1 h'.1)

str_nat_injective : (m n : ℕ) → str_nat m ≡ str_nat n → m ≡ n
unfolding str_int
str_nat_injective m n e =
    let same : some (pos m) ≡ some (pos n) =
      sym (int_of-str_int (pos m)) ∙ ap int_of e ∙ int_of-str_int (pos n) in
    ground arith

-- Two screenshots have one reference only if they are one message of one user.
pub manual_ref_injective :
    (user user' message message' : ℕ)
    → manual_ref (pos user) message ≡ manual_ref (pos user') message'
    → (user ≡ user') × (message ≡ message')
unfolding str_int
manual_ref_injective user user' message message' e =
    let tail : str_nat user ++ b'-' ∷ str_nat message ≡ str_nat user' ++ b'-' ∷ str_nat message' =
      ground arith in
    let (eu, em) =
      dash_splits (str_nat user) (str_nat user') (str_nat message) (str_nat message')
        (digits-str_nat user) (digits-str_nat user') tail in
    (str_nat_injective user user' eu, str_nat_injective message message' em)
