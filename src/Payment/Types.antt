-- ===== src/Payment/Types.antt =====
-- internal/service/payment_types.go, with the JSON of the outputs.
use card_payment_service.Prelude.{String, Option, none, some, [], ◌∷◌, str_eq, if◌then◌else◌}
use card_payment_service.Domain.{
  Uuid, ℤ, nil_uuid, TransactionStatus, RefundStatus, Json, status_text, status_of_text,
  refund_status_text, refund_status_of_text,
}
use card_payment_service.World.{Externals}

pub record ChargeInput : Type 0 where
  pub amount : ℤ
  pub card_number : String
  pub currency : String
  pub cvv : String
  pub description : Option String
  pub expiry_month : String
  pub expiry_year : String
  pub idempotency_key : String
  pub merchant_id : Uuid

pub record CaptureInput : Type 0 where
  pub transaction_id : Uuid
  pub merchant_id : Uuid

pub record ChargeOutput : Type 0 where
  pub transaction_id : Uuid
  pub status : TransactionStatus

pub record CaptureOutput : Type 0 where
  pub transaction_id : Uuid
  pub status : TransactionStatus

pub record VoidInput : Type 0 where
  pub transaction_id : Uuid
  pub merchant_id : Uuid

pub record VoidOutput : Type 0 where
  pub transaction_id : Uuid
  pub status : TransactionStatus

pub record RefundInput : Type 0 where
  pub transaction_id : Uuid
  pub merchant_id : Uuid
  pub idempotency_key : Uuid

pub record RefundOutput : Type 0 where
  pub refund_id : Uuid
  pub status : RefundStatus

-- The text of a field of a JSON object.
unfoldable pub json_field : String → Json → Option String
json_field name [] = none
json_field name ((n, v) ∷ rest) = if str_eq n name then some v else json_field name rest

module _ (x : Externals) where
  -- `json.Marshal` by the field tags
  unfoldable pub encode_charge : ChargeOutput → Json
  encode_charge out =
      ("transaction_id", x.uuid_text out.transaction_id) ∷ ("status", status_text out.status) ∷ []

  unfoldable pub encode_refund : RefundOutput → Json
  encode_refund out =
      ("refund_id", x.uuid_text out.refund_id) ∷ ("status", refund_status_text out.status) ∷ []

  -- A field of type `uuid.UUID`: zero if it is missing, an error if its text is no UUID.
  abbrev decode_uuid : Option String → Option Uuid
  decode_uuid none = some nil_uuid
  decode_uuid (some text) = x.parse_uuid text

  abbrev decode_status : Option String → TransactionStatus
  decode_status none = TransactionStatus.other ""
  decode_status (some text) = status_of_text text

  abbrev decode_refund_status : Option String → RefundStatus
  decode_refund_status none = RefundStatus.other ""
  decode_refund_status (some text) = refund_status_of_text text

  -- `json.Unmarshal` into a zero output; fields that the output does not have are ignored
  unfoldable pub decode_charge : Json → Option ChargeOutput
  decode_charge json = elim (decode_uuid (json_field "transaction_id" json)) [
    | none ↦ none
    | some id ↦
        some (record { transaction_id = id; status = decode_status (json_field "status" json) })
  ]

  unfoldable pub decode_refund : Json → Option RefundOutput
  decode_refund json = elim (decode_uuid (json_field "refund_id" json)) [
    | none ↦ none
    | some id ↦
        some (record { refund_id = id; status = decode_refund_status (json_field "status" json) })
  ]
