-- ===== src/Services.antt =====
-- app/services: what a payment means, and letting the payer in.
pub mod PaymentService
pub mod ChannelAccess
pub mod StripeService
