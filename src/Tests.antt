-- ===== src/Tests.antt =====
-- Runs of the model at concrete inputs, and each theorem at an input that meets its hypotheses.
mod Data
mod Domain
mod Payments
mod Jobs
mod Web
mod Handlers
mod Warnings
mod Reports
mod Bot
mod System
mod Races
