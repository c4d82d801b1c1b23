-- ===== src/Tests/Handlers.antt =====
-- The theorems about app/handlers.py at concrete inputs.
use telegram_subscription_ma.Base.{ℕ, ◌≡◌, refl, none, [], ◌∷◌, All, arith}
use telegram_subscription_ma.Base.Text.{Text, codes}
use telegram_subscription_ma.Base.Numerals.{str_nat}
use telegram_subscription_ma.Base.Action.{err}
use telegram_subscription_ma.Base.{List}
use telegram_subscription_ma.Db.Exceptions.{value_error}
use telegram_subscription_ma.Handlers.Chunks.{
  Fits, join_lines, split_loop, split_into_chunks, split_into_chunks-Fits,
  join_lines-split_into_chunks,
}
use telegram_subscription_ma.Handlers.Targets.{resolve_target, resolve_target_raises}

abbrev lines : List Text
lines = codes "one" ∷ codes "two" ∷ codes "three" ∷ []

splits : split_into_chunks 7 lines ≡ codes "one\ntwo" ∷ codes "three" ∷ []
unfolding split_into_chunks split_loop
splits = refl

split_into_chunks-Fits_example : All (Fits 7) (split_into_chunks 7 lines)
split_into_chunks-Fits_example =
    split_into_chunks-Fits 7 lines (omega arith, (omega arith, (omega arith, tt)))

join_lines-split_into_chunks_example : join_lines (split_into_chunks 7 lines) ≡ join_lines lines
join_lines-split_into_chunks_example = join_lines-split_into_chunks 7 lines

resolve_target_raises_example : resolve_target none (b'-' ∷ b'-' ∷ str_nat 5) ≡ err value_error
resolve_target_raises_example = resolve_target_raises none 5

abbrev annas_telegram_id : ℕ
annas_telegram_id = 101

abbrev message : ℕ
message = 7
