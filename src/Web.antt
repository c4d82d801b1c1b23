-- ===== src/Web.antt =====
-- app/web: the HTTP entry point for Stripe.
pub mod StripeWebhook
