-- ===== src/Domain/Entities.antt =====
-- The rows of the tables: internal/domain/{transaction,refund,merchant,api_key,idempotency_key}.go.
-- A Go pointer is an `Option`. The stored response of an idempotency key is a JSON object whose
-- values are texts, the only kind of response that the program stores.
use card_payment_service.Prelude.{String, Option, List}
use card_payment_service.Domain.Numbers.{Uuid, Time, ℤ}
use card_payment_service.Domain.Statuses.{
  TransactionStatus, RefundStatus, MerchantStatus, PaymentType,
}

pub record Transaction : Type 0 where
  pub id : Uuid
  pub merchant_id : Uuid
  pub gateway_ref : Option String
  pub payment_type : PaymentType
  pub card_token : String
  pub card_last_four : String
  pub card_brand : String
  pub amount : ℤ
  pub currency : String
  pub status : TransactionStatus
  pub description : Option String
  pub idempotency_key : String
  pub failed_reason : Option String
  pub captured_at : Option Time
  pub created_at : Time
  pub updated_at : Time

pub record Refund : Type 0 where
  pub id : Uuid
  pub transaction_id : Uuid
  pub merchant_id : Uuid
  pub refund_ref : Option String
  pub amount : ℤ
  pub status : RefundStatus
  pub failed_reason : Option String
  pub created_at : Time
  pub updated_at : Time

pub record Merchant : Type 0 where
  pub id : Uuid
  pub name : String
  pub email : String
  pub webhook_url : Option String
  pub status : MerchantStatus
  pub created_at : Time
  pub updated_at : Time

pub record ApiKey : Type 0 where
  pub id : Uuid
  pub merchant_id : Uuid
  pub key_prefix : String
  pub hashed_key : String
  pub revoked_at : Option Time
  pub created_at : Time

abbrev pub Json : Type 0
Json = List (String × String)

pub record IdempotencyKey : Type 0 where
  pub key : Uuid
  pub merchant_id : Uuid
  pub response : Json
  pub expires_at : Time
  pub created_at : Time
