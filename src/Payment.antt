-- ===== src/Payment.antt =====
-- internal/service/payment_*.go: the payment service.
pub mod Types
pub mod Idempotency
pub mod Calls
pub mod Transactions
pub mod Service
pub mod Replay
pub mod Charge
pub mod Authorize
pub mod Exclusion
pub mod Answers
pub mod Footprint
pub mod Funds
pub mod History
pub mod Guards
pub mod Settle
pub mod Lifecycle
