-- ===== src/Gateway.antt =====
-- internal/gateway/gateway.go: the requests, the responses and the interface of a gateway. A
-- response is a pointer, so it may be nil. A gateway is remote: its calls change what is outside
-- the program, `O`, and none of the program's own state.
pub mod TestCards
pub mod Mock
use card_payment_service.Prelude.{String, Option}
use card_payment_service.Domain.{ℤ}
use card_payment_service.Effect.{M}

pub record AuthorizeRequest : Type 0 where
  pub amount : ℤ
  pub currency : String
  pub order_id : String

pub record AuthorizeResponse : Type 0 where
  pub gateway_ref : String
  pub status : String

pub record TokenizeRequest : Type 0 where
  pub card_number : String
  pub expiry_month : String
  pub expiry_year : String
  pub cvv : String

pub record TokenizeResponse : Type 0 where
  pub card_token : String
  pub last_four : String
  pub brand : String

pub record CaptureRequest : Type 0 where
  pub gateway_ref : String
  pub order_id : String

pub record CaptureResponse : Type 0 where
  pub status : String
  pub gateway_ref : String

pub record VoidRequest : Type 0 where
  pub order_id : String
  pub gateway_ref : String

pub record VoidResponse : Type 0 where
  pub status : String
  pub gateway_ref : String

pub record RefundRequest : Type 0 where
  pub gateway_ref : String
  pub amount : ℤ

pub record RefundResponse : Type 0 where
  pub refund_ref : String
  pub status : String

pub record Gateway (O : Type 0) : Type 0 where
  pub authorize : AuthorizeRequest → M O (Option AuthorizeResponse)
  pub capture : CaptureRequest → M O (Option CaptureResponse)
  pub refund : RefundRequest → M O (Option RefundResponse)
  pub void : VoidRequest → M O (Option VoidResponse)
  pub tokenize_card : TokenizeRequest → M O (Option TokenizeResponse)
