-- ===== src/Tests.antt =====
-- Runs of the model at concrete inputs, and the theorems applied there.
mod Open
mod Payments
mod Gateways
mod Replays
mod Routes
mod Table
mod Locks
mod Merchants
mod Webhooks
mod Servers
mod Funds
mod Answers
