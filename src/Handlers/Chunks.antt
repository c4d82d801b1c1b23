-- ===== src/Handlers/Chunks.antt =====
-- How app/handlers.py splits a long report into messages.
use telegram_subscription_ma.Base.{
  ℕ, ◌+◌, ◌≤◌, ◌≡◌, refl, Bool, true, false, Bool-cases, inl, inr, not, ◌&&◌, ltb, List, [], ◌∷◌,
  ◌++◌, arith, length, All, if◌then◌else◌, ap, ◌∙◌, sym, subst,
}
use mathlib.Core.List.{append_assoc, append-nil}
use telegram_subscription_ma.Base.Text.{Text}

abbrev pub telegram_message_limit : ℕ
telegram_message_limit = 4096

-- `"\n".join(lines)`
abbrev pub join_lines : List Text → Text
join_lines [] = []
join_lines (line ∷ []) = line
join_lines (line ∷ next ∷ rest) = line ++ 10 ∷ join_lines (next ∷ rest)

abbrev pub is_empty : {A : Type 0} → List A → Bool
is_empty [] = true
is_empty (x ∷ xs) = false

-- The loop, from the lines that are left and the chunk that is being collected with its length; the
-- chunks that are finished stand in front of the result.
unfoldable pub split_loop : ℕ → List Text → List Text → ℕ → List Text
split_loop limit [] current current_len = if is_empty current then [] else join_lines current ∷ []
split_loop limit (line ∷ rest) current current_len =
    let extra = length line + (if is_empty current then 0 else 1) in
    elim (not (is_empty current) && ltb limit (current_len + extra)) [
      | true ↦ join_lines current ∷ split_loop limit rest (line ∷ []) (length line)
      | false ↦ split_loop limit rest (current ++ line ∷ []) (current_len + extra)
    ]

unfoldable pub split_into_chunks : ℕ → List Text → List Text
split_into_chunks limit lines = split_loop limit lines [] 0

length-◌++◌ : (s t : Text) → length (s ++ t) ≡ length s + length t
length-◌++◌ [] t = omega arith
length-◌++◌ (c ∷ s) t = omega (arith, length-◌++◌ s t)

length-join_lines :
    (current : List Text) (line : Text)
    → length (join_lines (current ++ line ∷ []))
      ≡ length (join_lines current) + (length line + (if is_empty current then 0 else 1))
length-join_lines [] line = omega arith
length-join_lines (x ∷ []) line = omega (arith, length-◌++◌ x (10 ∷ line))
length-join_lines (x ∷ y ∷ rest) line = omega (
  arith,
  length-join_lines (y ∷ rest) line,
  length-◌++◌ x (10 ∷ join_lines (y ∷ rest)),
  length-◌++◌ x (10 ∷ join_lines (y ∷ rest ++ line ∷ [])),
)

abbrev pub Fits : ℕ → Text → Type 0
Fits limit text = length text ≤ limit

abbrev extra : List Text → Text → ℕ
extra current line = length line + (if is_empty current then 0 else 1)

abbrev is_full : ℕ → List Text → ℕ → Text → Bool
is_full limit current current_len line =
    not (is_empty current) && ltb limit (current_len + extra current line)

split_loop-full :
    (limit : ℕ) (line : Text) (rest current : List Text) (current_len : ℕ)
    → is_full limit current current_len line ≡ true
    → split_loop limit (line ∷ rest) current current_len
      ≡ join_lines current ∷ split_loop limit rest (line ∷ []) (length line)
unfolding split_loop
split_loop-full limit line rest current len e = ground arith

split_loop-room :
    (limit : ℕ) (line : Text) (rest current : List Text) (current_len : ℕ)
    → is_full limit current current_len line ≡ false
    → split_loop limit (line ∷ rest) current current_len
      ≡ split_loop limit rest (current ++ line ∷ []) (current_len + extra current line)
unfolding split_loop
split_loop-room limit line rest current len e = ground arith

room-Fits :
    (limit : ℕ) (current : List Text) (current_len : ℕ) (line : Text)
    → current_len ≡ length (join_lines current)
    → is_full limit current current_len line ≡ false
    → Fits limit line
    → current_len + extra current line ≤ limit
room-Fits limit [] len line e room fit = omega arith
room-Fits limit (x ∷ xs) len line e room fit = ground arith

split_loop-Fits :
    (limit : ℕ) (lines current : List Text) (current_len : ℕ)
    → All (Fits limit) lines
    → current_len ≡ length (join_lines current)
    → current_len ≤ limit
    → All (Fits limit) (split_loop limit lines current current_len)
unfolding split_loop
split_loop-Fits limit [] [] len fit e small = tt
split_loop-Fits limit [] (x ∷ current) len fit e small = (omega arith, tt)
split_loop-Fits limit (line ∷ rest) current len fit e small =
    elim (Bool-cases (is_full limit current len line)) [
      | inl full ↦
          subst (All (Fits limit)) (sym (split_loop-full limit line rest current len full))
            (omega arith, split_loop-Fits limit rest (line ∷ []) (length line) fit.1 refl fit.0)
      | inr room ↦
          subst (All (Fits limit)) (sym (split_loop-room limit line rest current len room)) (
            split_loop-Fits limit rest (current ++ line ∷ []) (len + extra current line) fit.1
              (omega (arith, length-join_lines current line))
              (room-Fits limit current len line e room fit.0))
    ]

-- If every line fits into a message, so does every chunk.
pub split_into_chunks-Fits :
    (limit : ℕ) (lines : List Text)
    → All (Fits limit) lines
    → All (Fits limit) (split_into_chunks limit lines)
unfolding split_into_chunks
split_into_chunks-Fits limit lines fit = split_loop-Fits limit lines [] 0 fit refl (omega arith)

join_lines-◌++◌ :
    (xs ys : List Text)
    → is_empty xs ≡ false
    → is_empty ys ≡ false
    → join_lines (xs ++ ys) ≡ join_lines xs ++ 10 ∷ join_lines ys
join_lines-◌++◌ [] ys nx ny = absurd (ground arith)
join_lines-◌++◌ (x ∷ []) [] nx ny = absurd (ground arith)
join_lines-◌++◌ (x ∷ []) (y ∷ ys) nx ny = refl
join_lines-◌++◌ (x ∷ x' ∷ xs) ys nx ny =
    ap (λ t. x ++ 10 ∷ t) (join_lines-◌++◌ (x' ∷ xs) ys refl ny)
    ∙ sym (append_assoc x (10 ∷ join_lines (x' ∷ xs)) (10 ∷ join_lines ys))

is_empty-◌++◌ : (xs ys : List Text) → is_empty xs ≡ false → is_empty (xs ++ ys) ≡ false
is_empty-◌++◌ [] ys e = absurd (ground arith)
is_empty-◌++◌ (x ∷ xs) ys e = refl

split_loop-nonempty :
    (limit : ℕ) (lines current : List Text) (current_len : ℕ)
    → is_empty current ≡ false
    → is_empty (split_loop limit lines current current_len) ≡ false
unfolding split_loop
split_loop-nonempty limit [] current len ne = rw ne refl
split_loop-nonempty limit (line ∷ rest) current len ne =
    elim (Bool-cases (is_full limit current len line)) [
      | inl full ↦ ap is_empty (split_loop-full limit line rest current len full)
      | inr room ↦
          ap is_empty (split_loop-room limit line rest current len room)
          ∙ split_loop-nonempty limit rest (current ++ line ∷ []) (len + extra current line)
              (is_empty-◌++◌ current (line ∷ []) ne)
    ]

join_lines-cons :
    (chunk : Text) (chunks : List Text)
    → is_empty chunks ≡ false
    → join_lines (chunk ∷ chunks) ≡ chunk ++ 10 ∷ join_lines chunks
join_lines-cons chunk [] ne = absurd (ground arith)
join_lines-cons chunk (c ∷ cs) ne = refl

join_lines-split_loop :
    (limit : ℕ) (lines current : List Text) (current_len : ℕ)
    → join_lines (split_loop limit lines current current_len) ≡ join_lines (current ++ lines)
unfolding split_loop
join_lines-split_loop limit [] [] len = refl
join_lines-split_loop limit [] (x ∷ current) len = ap join_lines (sym (append-nil (x ∷ current)))
join_lines-split_loop limit (line ∷ rest) current len =
    elim (Bool-cases (is_full limit current len line)) [
      | inl full ↦
          ap join_lines (split_loop-full limit line rest current len full)
          ∙ join_lines-cons (join_lines current) (split_loop limit rest (line ∷ []) (length line))
              (split_loop-nonempty limit rest (line ∷ []) (length line) refl)
          ∙ ap (λ t. join_lines current ++ 10 ∷ t)
              (join_lines-split_loop limit rest (line ∷ []) (length line))
          ∙ sym (join_lines-◌++◌ current (line ∷ rest) (ground arith) refl)
      | inr room ↦
          ap join_lines (split_loop-room limit line rest current len room)
          ∙ join_lines-split_loop limit rest (current ++ line ∷ []) (len + extra current line)
          ∙ ap join_lines (append_assoc current (line ∷ []) rest)
    ]

-- Nothing of the report is lost: the chunks joined by line breaks are the lines joined by them.
pub join_lines-split_into_chunks :
    (limit : ℕ) (lines : List Text) → join_lines (split_into_chunks limit lines) ≡ join_lines lines
unfolding split_into_chunks
join_lines-split_into_chunks limit lines = join_lines-split_loop limit lines [] 0
