-- ===== src/World.antt =====
-- The state that a request reads and writes: the five tables, Redis, and what is outside. Two
-- fields are the model's own: `calls` records each request sent to the gateway, newest first, and
-- `background` holds what the program has handed to `go` and what has not run yet.
use card_payment_service.Prelude.{ℕ, String, Option, List, ◌∷◌, inl, inr}
use card_payment_service.Domain.{
  Uuid, Time, TransactionStatus, MerchantStatus, Transaction, Refund, Merchant, ApiKey,
  IdempotencyKey, Json,
}
use card_payment_service.Effect.{Result, ok, err, M}
use card_payment_service.External.Table.{Table, Reply}
use card_payment_service.External.Redis.{Redis}
use card_payment_service.Gateway.{
  AuthorizeRequest, CaptureRequest, RefundRequest, VoidRequest, TokenizeRequest,
}

-- The fields that an update of a transaction sets; `none` is a zero value, which gorm leaves out.
pub record TransactionChanges : Type 0 where
  pub status : TransactionStatus
  pub gateway_ref : Option String
  pub failed_reason : Option String
  pub captured_at : Option Time

pub record Externals : Type 1 where
  pub transactions : Table Transaction TransactionChanges
  pub merchants : Table Merchant MerchantStatus
  pub api_keys : Table ApiKey (Unit {0})
  pub idempotency_keys : Table IdempotencyKey (Unit {0})
  pub refunds : Table Refund (Unit {0})
  pub redis : Redis
  -- what is outside: the clock, the random source, the gateway's own state
  pub Outside : Type 0
  pub now : Outside → Time × Outside
  pub new_uuid : Outside → Uuid × Outside
  pub random_bytes : ℕ → Outside → List ℕ × Outside
  -- `uuid.Parse` and `UUID.String`, `sha256.Sum256`
  pub parse_uuid : String → Option Uuid
  pub uuid_text : Uuid → String
  pub sha256 : String → List ℕ

pub data Call : Type 0 where
  tokenize : TokenizeRequest → Call
  authorize : AuthorizeRequest → Call
  capture : CaptureRequest → Call
  void : VoidRequest → Call
  refund : RefundRequest → Call

-- `go s.saveIdempotency(key, merchantID, &out, log)`
pub record SaveJob : Type 0 where
  pub key : Uuid
  pub merchant_id : Uuid
  pub response : Json

pub record World (x : Externals) : Type 0 where
  pub transactions : x.transactions.State
  pub merchants : x.merchants.State
  pub api_keys : x.api_keys.State
  pub idempotency_keys : x.idempotency_keys.State
  pub refunds : x.refunds.State
  pub redis : x.redis.State
  pub outside : x.Outside
  pub calls : List Call
  pub background : List SaveJob

abbrev pub result_of : {A : Type 0} → Reply A → Result A
result_of (inl a) = ok a
result_of (inr e) = err e

module _ {x : Externals} where
  unfoldable pub on_transactions :
      {A : Type 0} → (x.transactions.State → Reply A × x.transactions.State) → M (World x) A
  on_transactions f w =
      (result_of (f w.transactions).0, record w { transactions = (f w.transactions).1 })

  unfoldable pub on_merchants :
      {A : Type 0} → (x.merchants.State → Reply A × x.merchants.State) → M (World x) A
  on_merchants f w = (result_of (f w.merchants).0, record w { merchants = (f w.merchants).1 })

  unfoldable pub on_api_keys :
      {A : Type 0} → (x.api_keys.State → Reply A × x.api_keys.State) → M (World x) A
  on_api_keys f w = (result_of (f w.api_keys).0, record w { api_keys = (f w.api_keys).1 })

  unfoldable pub on_idempotency_keys :
      {A : Type 0} → (x.idempotency_keys.State → Reply A × x.idempotency_keys.State) → M (World x) A
  on_idempotency_keys f w =
      (result_of (f w.idempotency_keys).0, record w { idempotency_keys = (f w.idempotency_keys).1 })

  unfoldable pub on_refunds :
      {A : Type 0} → (x.refunds.State → Reply A × x.refunds.State) → M (World x) A
  on_refunds f w = (result_of (f w.refunds).0, record w { refunds = (f w.refunds).1 })

  unfoldable pub on_redis : {A : Type 0} → (x.redis.State → Reply A × x.redis.State) → M (World x) A
  on_redis f w = (result_of (f w.redis).0, record w { redis = (f w.redis).1 })

  -- A value from outside, such as `time.Now()` or `uuid.New()`.
  unfoldable pub take_outside : {A : Type 0} → (x.Outside → A × x.Outside) → M (World x) A
  take_outside f w = (ok (f w.outside).0, record w { outside = (f w.outside).1 })

  -- A request to the gateway.
  unfoldable pub send : {A : Type 0} → Call → M x.Outside A → M (World x) A
  send c m w = ((m w.outside).0, record w { outside = (m w.outside).1; calls = c ∷ w.calls })

  unfoldable pub spawn : SaveJob → M (World x) (Unit {0})
  spawn job w = (ok tt, record w { background = job ∷ w.background })
