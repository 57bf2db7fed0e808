-- ===== src/Domain/Errors.antt =====
-- internal/domain/error.go, and the errors of other packages that the program passes on.
use card_payment_service.Prelude.{String}

pub data Error : Type 0 where
  -- common
  body_invalid missing_merchant_id missing_transaction_id missing_api_key invalid_api_key : Error
  -- merchants
  merchant_already_exists merchant_not_found merchant_status_not_accepted : Error
  merchant_not_active : Error
  -- payments
  duplicate_idempotency_key gateway_rejected invalid_gateway_ref tokenize_card : Error
  transaction_not_capturable transaction_not_found duplicate_request : Error
  transaction_already_voided transaction_already_refunded transaction_not_refundable : Error
  -- gateway (mock)
  card_amount_invalid card_capture_failed card_declined card_infor_invalid expired_card : Error
  insufficient_funds : Error
  -- `gorm.ErrRecordNotFound`, `gorm.ErrDuplicatedKey`, `redis.Nil`, `context.DeadlineExceeded`
  record_not_found duplicated_key redis_nil deadline_exceeded : Error
  -- an error made from a text, by `errors.New` or by another package
  message : String → Error

-- `err.Error()`
unfoldable pub error_text : Error → String
error_text body_invalid = "invalid body request"
error_text missing_merchant_id = "missing merchant_id"
error_text missing_transaction_id = "missing transaction_id"
error_text missing_api_key = "missing api key"
error_text invalid_api_key = "invalid api key"
error_text merchant_already_exists = "merchant email already exists"
error_text merchant_not_found = "merchant email not found"
error_text merchant_status_not_accepted = "merchant current status not accepted"
error_text merchant_not_active = "merchant not active"
error_text duplicate_idempotency_key = "idempotency key is duplicated"
error_text gateway_rejected = "gateway request rejected"
error_text invalid_gateway_ref = "invalid gateway reference"
error_text tokenize_card = "card information invalid"
error_text transaction_not_capturable = "transaction status not capturable"
error_text transaction_not_found = "transaction not found"
error_text duplicate_request = "duplicated request"
error_text transaction_already_voided = "transaction already voided"
error_text transaction_already_refunded = "transaction already refunded"
error_text transaction_not_refundable = "transaction status not refundable"
error_text card_amount_invalid = "amount invalid"
error_text card_capture_failed = "capture failed"
error_text card_declined = "card declined"
error_text card_infor_invalid = "card information invalid"
error_text expired_card = "expired_card"
error_text insufficient_funds = "insufficient funds"
error_text record_not_found = "record not found"
error_text duplicated_key = "duplicated key not allowed"
error_text redis_nil = "redis: nil"
error_text deadline_exceeded = "context deadline exceeded"
error_text (message text) = text
