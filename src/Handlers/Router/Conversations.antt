-- ===== src/Handlers/Router/Conversations.antt =====
-- Conversations through the router of app/handlers.py.
use telegram_subscription_ma.Base.{ℕ, ◌≡◌, sym, ap, ◌∙◌, none, some, arith}
use telegram_subscription_ma.Base.Action.{ok}
use telegram_subscription_ma.Telegram.{Bot, Settings}
use telegram_subscription_ma.Handlers.Chat.{Message, waiting_for_question, Chat}
use telegram_subscription_ma.Handlers.Questions.{
  refuse_question, thank, forward_question, unless_too_soon, receive_question,
}
use telegram_subscription_ma.Handlers.Router.{Surroundings, message, first_match, dispatch}

receive_question-state :
    (settings : Settings) (bot : Bot) (now sent_at : ℕ) (m : Message) (c : Chat)
    → (receive_question settings bot now sent_at m c).0 ≡ ok tt
    → (receive_question settings bot now sent_at m c).1.state ≡ none
unfolding receive_question unless_too_soon refuse_question forward_question thank
receive_question-state settings bot now sent_at m c e = ground (arith, e)

-- A message outside of a conversation that is no command goes to no handler.
dropped :
    (env : Surroundings) (m : Message) (c : Chat)
    → c.state ≡ none
    → dispatch env (message m none) c ≡ (ok tt, c)
unfolding dispatch first_match
dropped env m c idle = ground (arith, idle)

to_question :
    (env : Surroundings) (m : Message) (c : Chat)
    → c.state ≡ some waiting_for_question
    → dispatch env (message m none) c
      ≡ receive_question env.settings env.bot env.now env.sent_at m c
unfolding dispatch first_match
to_question env m c waiting = ground (arith, waiting)

-- A message that is awaited as a question and whose handler returns, be it forwarded or refused, ends
-- the conversation: the next message that is no command is dropped, with no call and no write.
pub question_ends :
    (env : Surroundings) (m : Message) (c : Chat)
    → c.state ≡ some waiting_for_question
    → (dispatch env (message m none) c).0 ≡ ok tt
    → (next_env : Surroundings) (next : Message)
    → let c' = (dispatch env (message m none) c).1 in
      dispatch next_env (message next none) c' ≡ (ok tt, c')
question_ends env m c waiting done next_env next =
    let e = to_question env m c waiting in
    let ended =
      receive_question-state env.settings env.bot env.now env.sent_at m c
        (ap (λ r. r.0) (sym e) ∙ done) in
    dropped next_env next (dispatch env (message m none) c).1 (ap (λ r. r.1.state) e ∙ ended)
