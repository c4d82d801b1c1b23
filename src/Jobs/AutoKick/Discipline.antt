-- ===== src/Jobs/AutoKick/Discipline.antt =====
-- Who is removed from the channel by app/jobs/auto_kick.py, and how.
use telegram_subscription_ma.Base.{
  ℕ, ◌≡◌, refl, Bool, true, false, Bool-cases, inl, inr, Option, none, some, List, [], ◌∷◌, arith,
  if◌then◌else◌, where_rows, not, ◌&&◌, ◌||◌,
}
use telegram_subscription_ma.Base.Int.{ℤ, int_eq}
use telegram_subscription_ma.Base.Text.{Text, text_eq}
use telegram_subscription_ma.Telegram.{
  Call, send_message, get_chat_member, ban_chat_member, unban_chat_member, Bot, Settings, World,
  truthy,
}
use telegram_subscription_ma.Jobs.AutoKick.{
  kicked_text, is_protection, is_protected_member, remove_from, unless_protected, ban_and_unban,
  remove_from_channel, run_auto_kick,
}
use telegram_subscription_ma.Jobs.AutoKick.Safety.{run_auto_kick-Keeps}

-- The calls before a ban begin with the check of that very member of that channel, and it cleared
-- the removal.
abbrev JustChecked : Bot → Text → ℤ → List Call → Type 0
JustChecked bot channel t (get_chat_member c u ∷ h) =
    (c ≡ channel) × (u ≡ t) × (is_protection (bot.membership h c u) ≡ false)
JustChecked bot channel t _ = ⊥

-- A ban that has succeeded and is the newest call.
abbrev standing_ban : Bot → List Call → Option (Text × ℤ)
standing_ban bot (ban_chat_member c t ∷ h) = if bot.bans h c t then some (c, t) else none
standing_ban bot _ = none

-- The call that may follow: after a ban that has succeeded, only the lifting of that ban.
abbrev MayFollow : Call → Option (Text × ℤ) → Type 0
MayFollow x none = Unit {0}
MayFollow x (some (c, t)) = x ≡ unban_chat_member c t true

abbrev Checked : Bot → Call → List Call → Type 0
Checked bot (ban_chat_member c t) h = JustChecked bot c t h
Checked bot _ h = Unit {0}

-- Every ban was cleared just before, and for every ban that succeeded the unban was asked for just after.
abbrev pub IsDisciplined : Bot → List Call → Type 0
IsDisciplined bot [] = Unit {0}
IsDisciplined bot (x ∷ h) = Checked bot x h × MayFollow x (standing_ban bot h) × IsDisciplined bot h

-- Whether two names of a channel and a person are the same.
abbrev is_same : Text → ℤ → Text → ℤ → Bool
is_same c t c' t' = text_eq c c' && int_eq t t'

-- Whether the calls leave the person banned from the channel: a ban that succeeds bans, an unban that
-- succeeds lifts it, and a call that Telegram refuses does neither.
abbrev pub is_banned : Bot → Text → ℤ → List Call → Bool
is_banned bot c t [] = false
is_banned bot c t (ban_chat_member c' t' ∷ h) =
    (is_same c t c' t' && bot.bans h c' t') || is_banned bot c t h
is_banned bot c t (unban_chat_member c' t' only_if_banned ∷ h) =
    not (is_same c t c' t' && bot.unbans h c' t') && is_banned bot c t h
is_banned bot c t (_ ∷ h) = is_banned bot c t h

-- Whether Telegram refused the last unban of the person that was asked for.
abbrev pub last_unban_refused : Bot → Text → ℤ → List Call → Bool
last_unban_refused bot c t [] = false
last_unban_refused bot c t (unban_chat_member c' t' only_if_banned ∷ h) =
    if is_same c t c' t' then not (bot.unbans h c' t') else last_unban_refused bot c t h
last_unban_refused bot c t (_ ∷ h) = last_unban_refused bot c t h

-- The calls are disciplined, no ban waits to be lifted at the end of them, and they leave banned
-- exactly those whose last unban Telegram refused.
abbrev pub AreLifted : Bot → List Call → Type 0
AreLifted bot h =
    IsDisciplined bot h
    × (standing_ban bot h ≡ none)
    × ((c : Text) (t : ℤ) → is_banned bot c t h ≡ last_unban_refused bot c t h)

after_lifted_ban :
    (same lifted banned before last : Bool)
    → banned ≡ true
    → before ≡ last
    → (not (same && lifted) && ((same && banned) || before)) ≡ (if same then not lifted else last)
after_lifted_ban true true banned before last b e = refl
after_lifted_ban true false banned before last b e = rw b refl
after_lifted_ban false lifted banned before last b e = e

after_refused_ban :
    (same banned before last : Bool)
    → banned ≡ false
    → before ≡ last
    → ((same && banned) || before) ≡ last
after_refused_ban true banned before last b e = rw b e
after_refused_ban false banned before last b e = e

ban_and_unban-AreLifted :
    (bot : Bot) (c : Text) (t : ℤ) (w : World)
    → JustChecked bot c t w.calls
    → AreLifted bot w.calls
    → AreLifted bot (ban_and_unban bot c t w).1.calls
unfolding ban_and_unban
ban_and_unban-AreLifted bot c t w checked (d, e, left) = elim (Bool-cases (bot.bans w.calls c t)) [
  | inl banned ↦
      let lifted = λ (c' : Text) (t' : ℤ).
        after_lifted_ban (is_same c' t' c t) (bot.unbans (ban_chat_member c t ∷ w.calls) c t)
          (bot.bans w.calls c t) (is_banned bot c' t' w.calls)
          (last_unban_refused bot c' t' w.calls) banned (left c' t') in
      rw banned ((tt, rw banned refl, (checked, rw e tt, d)), refl, lifted)
  | inr refused ↦ rw refused (
    (checked, rw e tt, d),
    rw refused refl,
    λ c' t'.
        after_refused_ban (is_same c' t' c t) (bot.bans w.calls c t) (is_banned bot c' t' w.calls)
          (last_unban_refused bot c' t' w.calls) refused (left c' t'),
  )
]

unless_protected-AreLifted :
    (settings : Settings) (bot : Bot) (c : Text) (t : ℤ) (protected : Bool) (w : World)
    → (protected ≡ false → JustChecked bot c t w.calls)
    → AreLifted bot w.calls
    → AreLifted bot (unless_protected settings bot c t protected w).1.calls
unfolding unless_protected
unless_protected-AreLifted settings bot c t true w checked h = h
unless_protected-AreLifted settings bot c t false w checked h =
    elim (Bool-cases settings.dry_run_kick) [
      | inl dry ↦ rw dry h
      | inr real ↦ rw real (ban_and_unban-AreLifted bot c t w (checked refl) h)
    ]

remove_from-AreLifted :
    (settings : Settings) (bot : Bot) (t : ℤ) (channel : Option Text) (w : World)
    → AreLifted bot w.calls
    → AreLifted bot (remove_from settings bot t channel w).1.calls
unfolding remove_from is_protected_member
remove_from-AreLifted settings bot t none w h = h
remove_from-AreLifted settings bot t (some c) w (d, e, left) =
    unless_protected-AreLifted settings bot c t (is_protection (bot.membership w.calls c t))
      (record w { calls = get_chat_member c t ∷ w.calls }) (λ cleared. (refl, refl, cleared))
      ((tt, rw e tt, d), refl, left)

removal-AreLifted :
    (settings : Settings) (bot : Bot) (t : ℤ) (w : World)
    → AreLifted bot w.calls
    → AreLifted bot (remove_from_channel settings bot t w).1.calls
unfolding remove_from_channel
removal-AreLifted settings bot t = remove_from-AreLifted settings bot t (truthy settings.channel_id)

notice-AreLifted :
    (bot : Bot) (t : ℤ) (h : List Call)
    → AreLifted bot h
    → AreLifted bot (send_message t kicked_text ∷ h)
notice-AreLifted bot t h (d, e, left) = ((tt, rw e tt, d), refl, left)

-- Whatever the database holds and however Telegram answers, a run of the job bans nobody whom it
-- has not just looked up in that channel and found to be no administrator or creator (or could not
-- look up), and asks to lift each ban that succeeds with the very next call. Where the calls before
-- have left banned exactly those whose last unban Telegram refused, so do the calls after the run: a
-- removed user stays banned only if Telegram refuses the unban, which the job does not repeat.
pub run_auto_kick-AreLifted :
    (settings : Settings) (bot : Bot) (now : ℕ) (w : World)
    → AreLifted bot w.calls
    → AreLifted bot (run_auto_kick settings bot now w).1.calls
run_auto_kick-AreLifted settings bot now =
    run_auto_kick-Keeps settings bot (AreLifted bot) (removal-AreLifted settings bot)
      (λ t h _. notice-AreLifted bot t h) now

-- The calls that anyone can notice: all but the lookups.
abbrev is_visible : Call → Bool
is_visible (get_chat_member c t) = false
is_visible _ = true

abbrev pub visible : List Call → List Call
visible = where_rows is_visible

removal-dry :
    (settings : Settings) (bot : Bot) (seen : List Call)
    → settings.dry_run_kick ≡ true
    → (t : ℤ) (w : World) → visible w.calls ≡ seen
    → visible (remove_from_channel settings bot t w).1.calls ≡ seen
unfolding remove_from_channel remove_from unless_protected is_protected_member
removal-dry settings bot seen dry t w h = ground arith

-- In a dry run nobody is banned, unbanned or written to.
pub run_auto_kick_dry :
    (settings : Settings) (bot : Bot) (now : ℕ) (w : World)
    → settings.dry_run_kick ≡ true
    → visible (run_auto_kick settings bot now w).1.calls ≡ visible w.calls
run_auto_kick_dry settings bot now w dry =
    run_auto_kick-Keeps settings bot (λ h. visible h ≡ visible w.calls)
      (removal-dry settings bot (visible w.calls) dry) (λ t h real _. absurd (cc (dry, real))) now w
      refl
