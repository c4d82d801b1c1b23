-- ===== src/Telegram/ReadOnly.antt =====
-- Programs that only read the database.
use telegram_subscription_ma.Base.{◌≡◌, ◌∙◌}
use telegram_subscription_ma.Base.Action.{Result, ok, err, ◌>>=◌}
use telegram_subscription_ma.Db.Exceptions.{Exception}
use telegram_subscription_ma.Telegram.{World, Program}

-- Whether it returns or raises, a program leaves the database as it is.
abbrev pub IsReadOnly : {A : Type 0} → Program A → Type 0
IsReadOnly p = (w : World) → (p w).1.database ≡ w.database

module _ {A B : Type 0} where
  then-IsReadOnly :
      (r : Result Exception A) (w w0 : World) (f : A → Program B)
      → w.database ≡ w0.database
      → ((a : A) → IsReadOnly (f a))
      → (elim r as (λ _. Result Exception B × World) [
        | ok a ↦ f a w
        | err e ↦ (err e, w)
      ]).1.database
        ≡ w0.database
  then-IsReadOnly (ok a) w w0 f same kept = kept a w ∙ same
  then-IsReadOnly (err e) w w0 f same kept = same

  pub bind-IsReadOnly :
      (m : Program A) (f : A → Program B)
      → IsReadOnly m
      → ((a : A) → IsReadOnly (f a))
      → IsReadOnly (m >>= f)
  bind-IsReadOnly m f km kf w = then-IsReadOnly (m w).0 (m w).1 w f (km w) kf
