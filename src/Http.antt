-- ===== src/Http.antt =====
-- internal/response, internal/httpx, internal/middleware: requests and responses. gin's context is
-- the request with the values that a middleware has stored in it.
pub mod Handlers
pub mod Routes
use card_payment_service.Prelude.{
  ℕ, String, Option, none, some, Bool, true, false, List, inl, inr, str_eq, if◌then◌else◌,
}
use card_payment_service.Domain.{
  Uuid, ℤ, nil_uuid, TransactionStatus, RefundStatus, Error, error_text, body_invalid,
  merchant_not_found, record_not_found, tokenize_card, merchant_already_exists,
  merchant_status_not_accepted, duplicate_idempotency_key, transaction_already_voided,
  duplicate_request, transaction_not_capturable, transaction_already_refunded, gateway_rejected,
  card_infor_invalid, card_amount_invalid, card_capture_failed, card_declined, expired_card,
  insufficient_funds, missing_transaction_id, missing_merchant_id, message,
}
use card_payment_service.External.Table.{Reply}
use card_payment_service.World.{Externals}
use card_payment_service.Merchant.{RegisterOutput}
use card_payment_service.Webhook.Simulator.{SimulateResult}

-- `mapErrStatusCode`
abbrev pub map_err_status_code : Error → ℕ
map_err_status_code merchant_not_found = 404
map_err_status_code record_not_found = 404
map_err_status_code tokenize_card = 406
map_err_status_code merchant_already_exists = 406
map_err_status_code merchant_status_not_accepted = 406
map_err_status_code duplicate_idempotency_key = 409
map_err_status_code transaction_already_voided = 409
map_err_status_code duplicate_request = 409
map_err_status_code transaction_not_capturable = 422
map_err_status_code transaction_already_refunded = 422
map_err_status_code gateway_rejected = 402
map_err_status_code card_infor_invalid = 402
map_err_status_code card_amount_invalid = 402
map_err_status_code card_capture_failed = 402
map_err_status_code card_declined = 402
map_err_status_code expired_card = 402
map_err_status_code insufficient_funds = 402
map_err_status_code _ = 500

-- the data of a response
pub data Payload : Type 0 where
  nothing : Payload
  payment : Uuid → TransactionStatus → Payload
  refund : Uuid → RefundStatus → Payload
  registration : RegisterOutput → Payload
  activation : String → String → String → Payload
  events : List String → Payload
  results : List SimulateResult → Payload
  health : String → String → Payload

pub record Response : Type 0 where
  pub code : ℕ
  pub success : Bool
  pub error : String
  pub payload : Payload

-- `OK` and `Created`
abbrev pub succeed : ℕ → Payload → Response
succeed code payload = record { code = code; success = true; error = ""; payload = payload }

-- `Error`, of a status and a text
abbrev pub fail : ℕ → String → Response
fail code text = record { code = code; success = false; error = text; payload = Payload.nothing }

-- `BadRequest`, `Unauthorized` and `FromError`
unfoldable pub bad_request : Response
bad_request = fail 400 (error_text body_invalid)

unfoldable pub unauthorized : String → Response
unauthorized text = fail 401 text

unfoldable pub from_error : Error → Response
from_error e = fail (map_err_status_code e) (error_text e)

-- what a middleware stores under a key: `c.Set` takes any value
pub data Value : Type 0 where
  text : String → Value
  uuid : Uuid → Value

-- dto.AuthorizePaymentRequest
pub record AuthorizePaymentRequest : Type 0 where
  pub amount : ℤ
  pub card_number : String
  pub currency : String
  pub cvv : String
  pub description : Option String
  pub expiry_month : String
  pub expiry_year : String

-- A request: the headers, the parameter of the path ("" where there is none), the body as
-- `ShouldBindJSON` reads it, and the values stored so far.
pub record Context : Type 0 where
  pub api_key : String
  pub idempotency_header : String
  pub transaction_id : String
  pub body : Option AuthorizePaymentRequest
  pub merchant_value : Option Value
  pub idempotency_value : Option Value

pub record PaymentRequestMeta : Type 0 where
  pub transaction_id : Uuid
  pub merchant_id : Uuid
  pub idempotency_key : Uuid

-- `uuid.Parse`, whose error is a text of the package
abbrev pub parsed : Option Uuid → Reply Uuid
parsed none = inr (message "invalid UUID")
parsed (some u) = inl u

-- `GetTransactionID`
unfoldable pub get_transaction_id : Externals → Context → Reply Uuid
get_transaction_id x c =
    if str_eq c.transaction_id ""
    then inr missing_transaction_id
    else parsed (x.parse_uuid c.transaction_id)

-- `val.(uuid.UUID)`, or an error with a text
abbrev pub uuid_value : Error → String → Option Value → Reply Uuid
uuid_value missing mistyped none = inr missing
uuid_value missing mistyped (some (Value.text s)) = inr (message mistyped)
uuid_value missing mistyped (some (Value.uuid u)) = inl u

-- `GetMerchantID`
unfoldable pub get_merchant_id : Context → Reply Uuid
get_merchant_id c = uuid_value missing_merchant_id "merchant_id invalid type" c.merchant_value

-- `GetIdempotencyKey`
unfoldable pub get_idempotency_key : Context → Reply Uuid
get_idempotency_key c =
    uuid_value (message "missing idempotency key") "idempotency key invalid type"
      c.idempotency_value

-- `a, err := r; if err != nil { return nil, err }`
abbrev pub then_reply : {A B : Type 0} → Reply A → (A → Reply B) → Reply B
then_reply (inl a) f = f a
then_reply (inr e) f = inr e

-- `GetPaymentMeta`
unfoldable pub get_payment_meta : Externals → Context → Reply PaymentRequestMeta
get_payment_meta x c = then_reply (get_transaction_id x c) λ id.
    then_reply (get_merchant_id c) λ merchant.
      then_reply (get_idempotency_key c)
        λ key. inl (record { transaction_id = id; merchant_id = merchant; idempotency_key = key })
