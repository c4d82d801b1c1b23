-- ===== src/Domain.antt =====
-- app/domain: the rules that need neither the database nor Telegram.
pub mod Calendar
pub mod Subscription
pub mod Time
pub mod Pricing
pub mod RateLimit
