-- ===== src/Domain/Statuses.antt =====
-- The status types. In Go each is a string with named constants; `other` holds any other text, and
-- `other ""` is the zero value.
use card_payment_service.Prelude.{String, Bool, true, false, str_eq, if◌then◌else◌}

pub data TransactionStatus : Type 0 where
  pending authorized captured failed voided refunded : TransactionStatus
  other : String → TransactionStatus

pub data RefundStatus : Type 0 where
  processing completed failed : RefundStatus
  other : String → RefundStatus

pub data MerchantStatus : Type 0 where
  pending active suspended : MerchantStatus
  other : String → MerchantStatus

pub data PaymentType : Type 0 where
  direct_charge authorize_capture : PaymentType

-- The tests `status == c` at the constants that the program tests for.
abbrev pub is_pending : TransactionStatus → Bool
is_pending TransactionStatus.pending = true
is_pending _ = false

abbrev pub is_authorized : TransactionStatus → Bool
is_authorized TransactionStatus.authorized = true
is_authorized _ = false

abbrev pub is_captured : TransactionStatus → Bool
is_captured TransactionStatus.captured = true
is_captured _ = false

abbrev pub is_failed : TransactionStatus → Bool
is_failed TransactionStatus.failed = true
is_failed _ = false

abbrev pub is_voided : TransactionStatus → Bool
is_voided TransactionStatus.voided = true
is_voided _ = false

abbrev pub is_refunded : TransactionStatus → Bool
is_refunded TransactionStatus.refunded = true
is_refunded _ = false

-- The text of a status, as in the JSON of a response, and the status of a text.
abbrev pub status_text : TransactionStatus → String
status_text TransactionStatus.pending = "pending"
status_text TransactionStatus.authorized = "authorized"
status_text TransactionStatus.captured = "captured"
status_text TransactionStatus.failed = "failed"
status_text TransactionStatus.voided = "voided"
status_text TransactionStatus.refunded = "refunded"
status_text (TransactionStatus.other s) = s

unfoldable pub status_of_text : String → TransactionStatus
status_of_text s =
    if str_eq s "pending"
    then TransactionStatus.pending
    else if str_eq s "authorized"
    then TransactionStatus.authorized
    else if str_eq s "captured"
    then TransactionStatus.captured
    else if str_eq s "failed"
    then TransactionStatus.failed
    else if str_eq s "voided"
    then TransactionStatus.voided
    else if str_eq s "refunded"
    then TransactionStatus.refunded
    else TransactionStatus.other s

abbrev pub refund_status_text : RefundStatus → String
refund_status_text RefundStatus.processing = "processing"
refund_status_text RefundStatus.completed = "completed"
refund_status_text RefundStatus.failed = "failed"
refund_status_text (RefundStatus.other s) = s

unfoldable pub refund_status_of_text : String → RefundStatus
refund_status_of_text s =
    if str_eq s "processing"
    then RefundStatus.processing
    else if str_eq s "completed"
    then RefundStatus.completed
    else if str_eq s "failed"
    then RefundStatus.failed
    else RefundStatus.other s
