-- ===== src/Base/Action/Keeps.antt =====
-- What holds of the state before a coroutine and after it, whether it returns or raises.
use mathlib.Core.Bool.{Bool, true, false}
use telegram_subscription_ma.Base.Tests.{if◌then◌else◌}
use telegram_subscription_ma.Base.Action.{Result, ok, err, Action, ◌>>=◌, catch}

abbrev pub Keeps : {S E A : Type 0} → (S → Type 0) → Action S E A → Type 0
Keeps {S} P m = (s : S) → P s → P (m s).1

module _ {S E A : Type 0} (P : S → Type 0) where
  Keeps-continue :
      {B : Type 0} (r : Result E A) (s : S) (f : A → Action S E B)
      → P s
      → ((a : A) → Keeps P (f a))
      → P (elim r as (λ _. Result E B × S) [ ok a ↦ f a s | err e ↦ (err e, s) ]).1
  Keeps-continue (ok a) s f h kf = kf a s h
  Keeps-continue (err e) s f h kf = h

  pub Keeps-bind :
      {B : Type 0} (m : Action S E A) (f : A → Action S E B)
      → Keeps P m
      → ((a : A) → Keeps P (f a))
      → Keeps P (m >>= f)
  Keeps-bind m f km kf s h = Keeps-continue (m s).0 (m s).1 f (km s h) kf

  Keeps-handle :
      (r : Result E A) (s : S) (f : E → Action S E A)
      → P s
      → ((e : E) → Keeps P (f e))
      → P (elim r as (λ _. Result E A × S) [ ok a ↦ (ok a, s) | err e ↦ f e s ]).1
  Keeps-handle (ok a) s f h kf = h
  Keeps-handle (err e) s f h kf = kf e s h

  pub Keeps-catch :
      (m : Action S E A) (f : E → Action S E A)
      → Keeps P m
      → ((e : E) → Keeps P (f e))
      → Keeps P (catch m f)
  Keeps-catch m f km kf s h = Keeps-handle (m s).0 (m s).1 f (km s h) kf

  pub Keeps-if :
      (b : Bool) (m n : Action S E A) → Keeps P m → Keeps P n → Keeps P (if b then m else n)
  Keeps-if true m n km kn = km
  Keeps-if false m n km kn = kn
