-- ===== src/Lib.antt =====
-- The subscription bot of this repository: it sells thirty days of access to a Telegram channel,
-- takes payments by Stripe, by a screenshot that the admin confirms or by the admin's /activate
-- command, warns subscribers before they run out and removes those who have.
--
-- Parts and files:
--   app/db/models.py: Db/Models (the tables as lists of rows), Db/Invariant (what the schema holds)
--   app/db/repositories.py: Db/Users, Db/Subscriptions, Db/Payments; their laws in Db/Laws, Db/Latest,
--     Db/Preservation (which single writes keep a database valid) and Db/Duplicates
--   app/domain/*.py: Domain/Subscription, Domain/Time, Domain/Pricing, Domain/RateLimit; the calendar
--     of the standard library is Domain/Calendar
--   app/services/payment_service.py: Services/PaymentService
--   app/jobs/auto_kick.py: Jobs/AutoKick (Sweep is a whole run)
--   app/jobs/expiration_warnings.py: Jobs/ExpirationWarnings (Runs and Runs/Sweep are a whole run)
--   app/services/channel_access.py: Services/ChannelAccess
--   app/services/stripe_service.py: Services/StripeService; what stripe answers is a parameter (Stripe)
--   app/web/stripe_webhook.py: Web/StripeWebhook; stripe's signature check is a parameter (Verifier)
--   app/handlers.py: Handlers/Chat (what aiogram hands to a handler, and the state of a conversation),
--     Handlers/Menus, Handlers/Questions, Handlers/Screenshots with Handlers/ManualPayment,
--     Handlers/AdminCommands with Handlers/Targets (/activate and /invite), Handlers/Subscribers with
--     Handlers/Chunks, and Handlers/Router, which sends an update to the first handler whose filters
--     pass, as aiogram does
--   app/keyboards.py: Keyboards
--   app/config.py: Config; the settings that the services read are in Telegram
--   alembic: Migrations (the one upgrade that writes rows)
--   main.py: System. The transactions that the program runs are the steps of a relation on databases
--     (Step, Reach); System/Clients, System/Handlers, System/Dispatch, System/Jobs and System/Webhook
--     show which of them each entry point takes, and System/Turns runs them one after the other
--   aiogram's Bot: Telegram
-- Base holds the shared helpers: text as code points, integers and their decimal notation, tables
-- whose rows are keyed by a sequence, sorting, and coroutines (Base/Action) as functions from a state
-- to a result and a state. What a coroutine wrote before it raises stays written, unless it runs in
-- a transaction.
--
-- A function keeps its Python name, without a leading underscore; the branches of a long handler
-- are functions of their own, named for the point at which they begin. `utcnow()` is an argument
-- `now`, in microseconds since 1970. An amount is counted in hundredths. A transaction runs with
-- nothing in between: the steps of System are serial schedules, in which any transaction may follow
-- any other, also between those of one handler (which takes the rows that it read before as
-- arguments, and these may be stale). The engine keeps PostgreSQL's READ COMMITTED, under which
-- transactions can overlap; what others commit within one is modelled for `get_or_create`
-- (`get_or_create_racing`), for an activation after its lookup of the live row and for a
-- confirmation after its locked lookup (Services/PaymentService/Race and Locked), and at no other
-- point. SELECT ... FOR UPDATE is an argument of `get_by_id`, and what it keeps others from is
-- KeepsLocked. ORDER BY … DESC puts NULL first. The answers of Telegram are a parameter that may
-- depend on all earlier calls; a call that Telegram refuses raises a TelegramAPIError unless the
-- code catches it. The column users.telegram_id holds the numbers of PostgreSQL's INTEGER, and
-- others are refused with a DataError.
--
-- No loop takes fuel but the printing of a number, where one round more than the number is enough
-- (Base/Numerals).
--
-- Not modelled: logging, the scheduler, the HTTP server, the engine and the start-up are third-party
-- calls, and so are the changes of the schema by the migrations. The reply keyboard `main`, `catalog`,
-- which nothing sends, and the pauses between the calls of /subscribers are left out, and so are the
-- lengths of the text columns, the range of Numeric(10, 2) and the range of the other INTEGER
-- columns. A database connection that fails by itself is not modelled: a repository call raises only
-- what its code and the constraints of the schema raise. What a command is, and its arguments, is
-- found by aiogram's filter.
pub mod Base
pub mod Config
pub mod Db
pub mod Domain
pub mod Handlers
pub mod Jobs
pub mod Keyboards
pub mod Migrations
pub mod Services
pub mod System
pub mod Telegram
pub mod Tests
pub mod Web
