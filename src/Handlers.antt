-- ===== src/Handlers.antt =====
-- app/handlers.py.
pub mod Chat
pub mod Menus
pub mod Chunks
pub mod Targets
pub mod ManualPayment
pub mod Questions
pub mod Screenshots
pub mod AdminCommands
pub mod Subscribers
pub mod Router
