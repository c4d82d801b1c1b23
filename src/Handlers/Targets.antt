-- ===== src/Handlers/Targets.antt =====
-- Whom the admin means by `/activate` in app/handlers.py: an id, or the sender of the message that is
-- forwarded and replied to. Digits are those of ASCII.
use telegram_subscription_ma.Base.{
  ℕ, suc, ◌≡◌, refl, Bool, true, false, ◌==◌, ◌&&◌, Option, none, some, [], ◌∷◌, ◌++◌, arith, All,
  if◌then◌else◌, ap, ◌∙◌,
}
use telegram_subscription_ma.Base.Int.{ℤ, pos, negsuc}
use telegram_subscription_ma.Base.Text.{Text, codes}
use telegram_subscription_ma.Base.Numerals.{
  str_nat, str_int, is_digit, strip, int_of, digits-str_nat, strip_digits, strip_sign, strip_signs,
  int_of-signs, int_of-str_int,
}
use telegram_subscription_ma.Base.Action.{Result, ok, err}
use telegram_subscription_ma.Db.Exceptions.{Exception, value_error}
use telegram_subscription_ma.Telegram.{truthy}

-- `message.forward_origin`, by its class.
pub data Origin : Type 0 where
  -- MessageOriginUser: the sender's id, username and full name.
  from_user : ℤ → Option Text → Text → Origin
  -- MessageOriginHiddenUser: the name that is shown.
  from_hidden_user : Text → Origin
  from_chat : Origin

abbrev pub activate_usage : Text
activate_usage =
    codes
      "Использование:\n• Перешли этому боту любое сообщение от клиента и ответь на пересланное сообщение командой /activate\n• Или, если telegram_id уже известен: /activate 123456789"

-- `f"@{user.username}" if user.username else user.full_name`
abbrev pub display_name : Option Text → Text → Text
display_name none full_name = full_name
display_name (some username) full_name = b'@' ∷ username

-- A target, or the text to answer the admin with.
abbrev pub Target : Type 0
Target = Result Text (ℤ × Text)

unfoldable pub resolve_forwarded_sender : Origin → Option (ℤ × Text)
resolve_forwarded_sender (from_user id username full_name) =
    some (id, display_name (truthy username) full_name)
resolve_forwarded_sender (from_hidden_user name) = none
resolve_forwarded_sender from_chat = none

-- From `origin = forwarded.forward_origin` on.
unfoldable pub resolve_origin : Option Origin → Target
unfolding resolve_forwarded_sender
resolve_origin none = err (codes "❌ Это не пересланное сообщение.\n\n" ++ activate_usage)
resolve_origin (some (from_hidden_user name)) = err (
    codes "❌ У "
    ++ name
    ++ codes
        " в настройках приватности скрыта пересылка — Telegram не даёт узнать его id таким способом.\n\nУзнай его telegram_id другим способом (например, через @userinfobot) и используй /activate <telegram_id>.")
resolve_origin (some origin) = elim (resolve_forwarded_sender origin) [
  | none ↦ err (
      codes
        "❌ Это сообщение переслано не от пользователя (а от чата или канала) — не могу определить, кого активировать.")
  | some target ↦ ok target
]

-- `args.lstrip('-')`
abbrev pub lstrip_minus : Text → Text
lstrip_minus [] = []
lstrip_minus (c ∷ s) = if c == b'-' then lstrip_minus s else c ∷ s

abbrev pub all_digits : Text → Bool
all_digits [] = true
all_digits (c ∷ s) = is_digit c && all_digits s

-- `s.isdigit()`, which the empty text is not.
abbrev pub isdigit : Text → Bool
isdigit [] = false
isdigit (c ∷ s) = is_digit c && all_digits s

-- What a given id comes to: `none` where the guard refuses it, and the ValueError that `int` raises.
unfoldable pub telegram_id_of : Text → Result Exception (Option ℤ)
telegram_id_of args =
    if isdigit (lstrip_minus args)
    then elim (int_of args) [ none ↦ err value_error | some t ↦ ok (some t) ]
    else ok none

-- The branch of `_resolve_target` for arguments that are not empty.
unfoldable pub target_of : Result Exception (Option ℤ) → Result Exception Target
target_of (err e) = err e
target_of (ok none) = ok (
    err (
      codes "❌ /activate ожидает числовой telegram_id, например /activate 123456789.\n\n"
      ++ activate_usage))
target_of (ok (some telegram_id)) = ok (ok (telegram_id, codes "id " ++ str_int telegram_id))

-- `_resolve_target`, by the message that is replied to and the stripped arguments.
unfoldable pub resolve_args : Option (Option Origin) → Text → Result Exception Target
resolve_args none [] = ok (err activate_usage)
resolve_args (some origin) [] = ok (resolve_origin origin)
resolve_args reply (c ∷ args) = target_of (telegram_id_of (c ∷ args))

unfoldable pub resolve_target : Option (Option Origin) → Text → Result Exception Target
resolve_target reply raw_args = resolve_args reply (strip raw_args)

all_digits-lem : (s : Text) → All (λ c. is_digit c ≡ true) s → all_digits s ≡ true
all_digits-lem [] h = refl
all_digits-lem (c ∷ s) h = ground (arith, all_digits-lem s h.1)

digits_read :
    (s : Text) (t : ℤ)
    → All (λ c. is_digit c ≡ true) s
    → int_of s ≡ some t
    → isdigit (lstrip_minus s) ≡ true
unfolding int_of
digits_read [] t h e = absurd (cc e)
digits_read (c ∷ s) t h e = ground (arith, all_digits-lem s h.1)

given_id :
    (reply : Option (Option Origin)) (s : Text) (t : ℤ)
    → strip s ≡ s
    → isdigit (lstrip_minus s) ≡ true
    → int_of s ≡ some t
    → resolve_target reply s ≡ ok (ok (t, codes "id " ++ str_int t))
unfolding resolve_target resolve_args target_of telegram_id_of
given_id reply [] t bare digits e = absurd (cc digits)
given_id reply (c ∷ s) t bare digits e = ap (resolve_args reply) bare ∙ ground (arith, digits, e)

-- An id that is typed as it is printed is accepted, a negative one too.
pub resolve_target-str_int :
    (reply : Option (Option Origin)) (t : ℤ)
    → resolve_target reply (str_int t) ≡ ok (ok (t, codes "id " ++ str_int t))
unfolding str_int
resolve_target-str_int reply (pos n) =
    given_id reply (str_nat n) (pos n) (strip_digits (str_nat n) (digits-str_nat n))
      (digits_read (str_nat n) (pos n) (digits-str_nat n) (int_of-str_int (pos n)))
      (int_of-str_int (pos n))
resolve_target-str_int reply (negsuc n) =
    given_id reply (b'-' ∷ str_nat (suc n)) (negsuc n)
      (strip_sign (str_nat (suc n)) (digits-str_nat (suc n)))
      (digits_read (str_nat (suc n)) (pos (suc n)) (digits-str_nat (suc n))
        (int_of-str_int (pos (suc n))))
      (int_of-str_int (negsuc n))

-- Two minus signs in front of digits pass the guard, and `int` raises ValueError.
pub resolve_target_raises :
    (reply : Option (Option Origin)) (n : ℕ)
    → resolve_target reply (b'-' ∷ b'-' ∷ str_nat n) ≡ err value_error
unfolding resolve_target resolve_args target_of telegram_id_of
resolve_target_raises reply n =
    ap (resolve_args reply) (strip_signs (str_nat n) (digits-str_nat n))
    ∙ ground (
      arith,
      digits_read (str_nat n) (pos n) (digits-str_nat n) (unfold str_int in int_of-str_int (pos n)),
      int_of-signs (str_nat n) (digits-str_nat n),
    )
