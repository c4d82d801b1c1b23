-- ===== src/Db.antt =====
-- app/db: the tables, the exceptions, and the repositories.
pub mod Models
pub mod Exceptions
pub mod Users
pub mod Subscriptions
pub mod Payments
pub mod Invariant
pub mod Laws
pub mod Latest
pub mod Preservation
pub mod Duplicates
