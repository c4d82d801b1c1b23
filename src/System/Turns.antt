-- ===== src/System/Turns.antt =====
-- The program as main.py runs it: updates, deliveries of the webhook and runs of the jobs, one turn
-- after the other, on one database, with a conversation for each user of each chat. Interleavings
-- of their transactions are the sequences of System.
use telegram_subscription_ma.Base.{ℕ, Bool, Option, List, [], ◌∷◌, ◌&&◌, if◌then◌else◌}
use telegram_subscription_ma.Base.Int.{ℤ, int_eq}
use telegram_subscription_ma.Base.Text.{Text}
use telegram_subscription_ma.Db.Models.{Database}
use telegram_subscription_ma.Db.Invariant.{IsValid}
use telegram_subscription_ma.Telegram.{Bot, Settings, World}
use telegram_subscription_ma.Jobs.AutoKick.{run_auto_kick}
use telegram_subscription_ma.Jobs.ExpirationWarnings.{run_expiration_warnings}
use telegram_subscription_ma.Web.StripeWebhook.{Verifier, handle_stripe_webhook}
use telegram_subscription_ma.Handlers.Chat.{Waiting, Chat}
use telegram_subscription_ma.Handlers.Router.{
  Surroundings, Update, message, callback_query, dispatch,
}
use telegram_subscription_ma.System.{Reach, here, next}
use telegram_subscription_ma.System.Invariant.{Reach-IsValid}
use telegram_subscription_ma.System.Dispatch.{dispatch-Reach}
use telegram_subscription_ma.System.Jobs.{run_auto_kick-Keeps, run_expiration_warnings-Keeps}
use telegram_subscription_ma.System.Webhook.{handle_stripe_webhook-Keeps}

-- A chat and a user in it, which MemoryStorage keeps a state for.
abbrev pub Key : Type 0
Key = ℤ × ℤ

abbrev pub key_eq : Key → Key → Bool
key_eq a b = int_eq a.0 b.0 && int_eq a.1 b.1

pub record App : Type 0 where
  pub world : World
  pub states : Key → Option Waiting

pub data Turn : Type 0 where
  update : Surroundings → Update → Turn
  delivery : Settings → Bot → Verifier → ℕ → ℕ → Text → Text → Turn
  kick_run : Settings → Bot → ℕ → Turn
  warning_run : Bot → ℕ → Turn

abbrev pub key_of : Update → Key
key_of (message m command) = (m.chat, m.from_user.id)
key_of (callback_query callback) = (callback.message.chat, callback.from_user.id)

abbrev pub with_state : Key → Chat → App → App
with_state key c app = record {
  world = c.world;
  states = λ k. if key_eq k key then c.state else app.states k;
}

-- What a handler raises, aiogram, aiohttp and the scheduler log.
unfoldable pub turn : Turn → App → App
turn (update env u) app =
    with_state (key_of u)
      (dispatch env u (record { world = app.world; state = app.states (key_of u) })).1 app
turn (delivery settings bot verify now local_now payload signature) app = record app {
  world = (handle_stripe_webhook settings bot verify now local_now payload signature app.world).1;
}
turn (kick_run settings bot now) app = record app {
  world = (run_auto_kick settings bot now app.world).1;
}
turn (warning_run bot now) app = record app {
  world = (run_expiration_warnings bot now app.world).1;
}

unfoldable pub run : List Turn → App → App
run [] app = app
run (t ∷ ts) app = run ts (turn t app)

Reach-trans : {a b c : Database} → Reach a b → Reach b c → Reach a c
Reach-trans first here = first
Reach-trans first (next rest st) = next (Reach-trans first rest) st

turn-Reach : (t : Turn) (app : App) → Reach app.world.database (turn t app).world.database
unfolding turn
turn-Reach (update env u) app =
    dispatch-Reach env u (record { world = app.world; state = app.states (key_of u) })
turn-Reach (delivery settings bot verify now local_now payload signature) app =
    handle_stripe_webhook-Keeps app.world.database settings bot now local_now verify payload
      signature app.world here
turn-Reach (kick_run settings bot now) app =
    run_auto_kick-Keeps app.world.database settings bot now app.world here
turn-Reach (warning_run bot now) app =
    run_expiration_warnings-Keeps app.world.database bot now app.world here

run-Reach : (ts : List Turn) (app : App) → Reach app.world.database (run ts app).world.database
unfolding run
run-Reach [] app = here
run-Reach (t ∷ ts) app = Reach-trans (turn-Reach t app) (run-Reach ts (turn t app))

-- However updates, deliveries and jobs follow on each other, one after the other, whatever they say and
-- whatever is raised on the way, all that they do to the database is a sequence of the transactions of System, and a
-- valid database stays valid.
pub run-IsValid :
    (ts : List Turn) (app : App)
    → IsValid app.world.database
    → Reach app.world.database (run ts app).world.database × IsValid (run ts app).world.database
run-IsValid ts app v = let r = run-Reach ts app in (r, Reach-IsValid r v)
