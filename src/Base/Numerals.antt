-- ===== src/Base/Numerals.antt =====
-- `str(n)` and `int(s)` of the standard library on ASCII text. `int` strips white space, takes one
-- sign, and digits with single underscores between them; it raises ValueError on anything else.
use mathlib.Core.Option
use telegram_subscription_ma.Base.Text.{Text, codes}
use telegram_subscription_ma.Base.Int.{ℤ, pos, negsuc}
use telegram_subscription_ma.Base.{
  All-append, ℕ, zero, suc, ◌+◌, ◌-◌, ◌*◌, ◌/◌, ◌%◌, ◌<◌, ◌≡◌, refl, Bool, true, false, ◌&&◌, ◌||◌,
  not, Option, none, some, [], ◌∷◌, ◌++◌, arith, ltb, leb, ◌==◌, if◌then◌else◌, Bool-cases, inl,
  inr, All, ap, ◌∙◌,
}

-- The decimal digits of `n`, most significant first; `n + 1` rounds are enough.
decimal_from : ℕ → ℕ → Text
decimal_from zero n = []
decimal_from (suc fuel) n =
    let rest = decimal_from fuel (n / 10) ++ (48 + n % 10) ∷ [] in
    if ltb n 10 then (48 + n) ∷ [] else rest

unfoldable pub str_nat : ℕ → Text
unfolding decimal_from
str_nat n = decimal_from (suc n) n

-- `str(n)`
unfoldable pub str_int : ℤ → Text
unfolding str_nat
str_int (pos n) = str_nat n
str_int (negsuc n) = b'-' ∷ str_nat (suc n)

abbrev pub is_digit : ℕ → Bool
is_digit c = leb 48 c && leb c 57

-- The digits of a number: an underscore stands only between two digits. `wants` says that a digit
-- must come next.
next_digit : Bool → ℕ → ℕ → Option (Bool × ℕ)
next_digit wants acc c =
    if is_digit c
    then some (false, acc * 10 + (c - 48))
    else if c == b'_' && not wants
    then some (true, acc)
    else none

digits_value : Bool → ℕ → Text → Option ℕ
digits_value wants acc [] = if wants then none else some acc
digits_value wants acc (c ∷ s) = elim (next_digit wants acc c) [
  | none ↦ none
  | some (w, a) ↦ digits_value w a s
]

-- The white space of ASCII.
abbrev pub is_space : ℕ → Bool
is_space c = (leb 9 c && leb c 13) || (leb 28 c && leb c 32)

-- `s.lstrip()`, `s.rstrip()` and `s.strip()`
unfoldable pub lstrip : Text → Text
lstrip [] = []
lstrip (c ∷ s) = if is_space c then lstrip s else c ∷ s

unfoldable pub rstrip : Text → Text
rstrip [] = []
rstrip (c ∷ s) = elim (rstrip s) [ [] ↦ if is_space c then [] else c ∷ [] | d ∷ t ↦ c ∷ d ∷ t ]

unfoldable pub strip : Text → Text
unfolding lstrip rstrip
strip s = rstrip (lstrip s)

-- `-n`
abbrev minus : ℕ → ℤ
minus zero = pos 0
minus (suc n) = negsuc n

signed : Text → Option ℤ
unfolding digits_value next_digit
signed [] = none
signed (c ∷ s) =
    if c == b'-'
    then Option.map minus (digits_value true 0 s)
    else if c == b'+'
    then Option.map pos (digits_value true 0 s)
    else Option.map pos (digits_value true 0 (c ∷ s))

-- `int(s)`, where `none` is a ValueError.
unfoldable pub int_of : Text → Option ℤ
unfolding signed strip
int_of s = signed (strip s)

int_of_tests :
    (int_of (codes " -1_0 ") ≡ some (negsuc 9))
    × (int_of (codes "--5") ≡ none)
    × (int_of (codes "1__0") ≡ none)
    × (int_of (codes "") ≡ none)
    × (int_of (codes "+007") ≡ some (pos 7))
unfolding int_of
int_of_tests = (refl, refl, refl, refl, refl)

str_int_tests : (str_int (negsuc 11) ≡ codes "-12") × (str_int (pos 0) ≡ codes "0")
unfolding str_int
str_int_tests = (refl, refl)

-- What is printed is digits only, and at least one.
decimal_from-digits : (f n : ℕ) → All (λ c. is_digit c ≡ true) (decimal_from f n)
unfolding decimal_from
decimal_from-digits zero n = tt
decimal_from-digits (suc f) n = elim (Bool-cases (ltb n 10)) [
  | inl small ↦ rw small (ground arith, tt)
  | inr large ↦
      rw large (
        All-append _ (decimal_from f (n / 10)) _ (decimal_from-digits f (n / 10))
          (ground arith, tt))
]

next_digit_lem :
    (w : Bool) (acc c : ℕ)
    → is_digit c ≡ true
    → next_digit w acc c ≡ some (false, acc * 10 + (c - 48))
unfolding next_digit
next_digit_lem w acc c h = rw h

-- One more digit behind the text makes its value ten times as large, and adds the digit.
digits_value-append :
    (s : Text) (c acc m : ℕ) (w : Bool)
    → All (λ c. is_digit c ≡ true) s
    → is_digit c ≡ true
    → digits_value w acc s ≡ some m
    → digits_value w acc (s ++ c ∷ []) ≡ some (m * 10 + (c - 48))
unfolding digits_value
digits_value-append [] c acc m w h hc e =
    rw (next_digit_lem w acc c hc, digits_value) (ground arith)
digits_value-append (d ∷ s) c acc m w h hc e =
    rw (next_digit_lem w acc d h.0, digits_value)
      (digits_value-append s c (acc * 10 + (d - 48)) m false h.1 hc
        (rw (next_digit_lem w acc d h.0, digits_value) at e))

digits_value-decimal_from : (f n : ℕ) → n < f → digits_value true 0 (decimal_from f n) ≡ some n
unfolding decimal_from
digits_value-decimal_from zero n h = elim h [ ]
digits_value-decimal_from (suc f) n h = elim (Bool-cases (ltb n 10)) [
  | inl small ↦ rw small (unfold digits_value next_digit in ground arith)
  | inr large ↦ rw large (
      digits_value-append (decimal_from f (n / 10)) (48 + n % 10) 0 (n / 10) true
        (decimal_from-digits f (n / 10)) (ground arith)
        (digits_value-decimal_from f (n / 10) (ground arith))
      ∙ ap some (ground arith))
]

pub digits-str_nat : (n : ℕ) → All (λ c. is_digit c ≡ true) (str_nat n)
unfolding str_nat
digits-str_nat n = decimal_from-digits (suc n) n

digits_value-str_nat : (n : ℕ) → digits_value true 0 (str_nat n) ≡ some n
unfolding str_nat
digits_value-str_nat n = digits_value-decimal_from (suc n) n (omega arith)

rstrip_digits : (s : Text) → All (λ c. is_digit c ≡ true) s → rstrip s ≡ s
unfolding rstrip
rstrip_digits [] h = refl
rstrip_digits (c ∷ []) h = ground arith
rstrip_digits (c ∷ d ∷ s) h = rw (rstrip_digits (d ∷ s) h.1)

pub strip_sign : (s : Text) → All (λ c. is_digit c ≡ true) s → strip (b'-' ∷ s) ≡ b'-' ∷ s
unfolding strip
strip_sign [] h = refl
strip_sign (c ∷ s) h = rw (rstrip_digits (c ∷ s) h)

pub strip_digits : (s : Text) → All (λ c. is_digit c ≡ true) s → strip s ≡ s
unfolding strip
strip_digits [] h = refl
strip_digits (c ∷ s) h = rw (nonspace, rstrip_digits (c ∷ s) h)
  where
    nonspace : is_space c ≡ false
    nonspace = ground arith

signed_digits :
    (s : Text) (n : ℕ)
    → All (λ c. is_digit c ≡ true) s
    → digits_value true 0 s ≡ some n
    → signed s ≡ some (pos n)
unfolding signed
signed_digits [] n h e = absurd (unfold digits_value in cc)
signed_digits (c ∷ s) n h e = ground arith

-- What `str` prints of an integer `int` reads back, the sign included.
pub int_of-str_int : (i : ℤ) → int_of (str_int i) ≡ some i
unfolding int_of str_int
int_of-str_int (pos n) =
    rw (strip_digits (str_nat n) (digits-str_nat n))
      (signed_digits (str_nat n) n (digits-str_nat n) (digits_value-str_nat n))
int_of-str_int (negsuc n) =
    rw (strip_sign (str_nat (suc n)) (digits-str_nat (suc n)), signed, digits_value-str_nat (suc n))

pub strip_signs :
    (s : Text) → All (λ c. is_digit c ≡ true) s → strip (b'-' ∷ b'-' ∷ s) ≡ b'-' ∷ b'-' ∷ s
unfolding strip
strip_signs s h = rw (strip_sign s h)

-- A second sign is refused.
pub int_of-signs : (s : Text) → All (λ c. is_digit c ≡ true) s → int_of (b'-' ∷ b'-' ∷ s) ≡ none
unfolding int_of signed digits_value next_digit
int_of-signs s h = rw (strip_signs s h)
