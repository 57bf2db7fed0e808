-- ===== src/Payment/Service.antt =====
-- internal/service/payment_service.go: the five operations of the payment service, and the steps
-- that they share. A call of `go s.saveIdempotency(...)` leaves a job in the background.
use card_payment_service.Prelude.{ℕ, String, ◌*◌, Option, none, some, not, str_eq, if◌then◌else◌}
use Prim.Native.String
use card_payment_service.Domain.{
  Uuid, Time, Transaction, TransactionStatus, PaymentType, RefundStatus, is_pending, is_authorized,
  is_captured, is_failed, is_voided, is_refunded, gateway_rejected, tokenize_card,
  duplicate_request, transaction_already_voided, transaction_already_refunded,
  transaction_not_refundable,
}
use card_payment_service.Effect.{
  M, pure, raise, return_both, raise_if, catch, panicking, must_parse, deref, deferred, ◌>>=◌, ◌>>◌,
}
use card_payment_service.Gateway.{Gateway, TokenizeRequest, TokenizeResponse}
use card_payment_service.World.{
  Externals, World, TransactionChanges, Call, take_outside, send, spawn,
}
use card_payment_service.Lock.{acquire, release}
use card_payment_service.Repository.{find_transaction, update_transaction}
use card_payment_service.Payment.Types.{
  ChargeInput, ChargeOutput, CaptureInput, CaptureOutput, VoidInput, VoidOutput, RefundInput,
  RefundOutput, encode_charge, decode_charge, encode_refund, decode_refund,
}
use card_payment_service.Payment.Idempotency.{cached_idempotency}
use card_payment_service.Payment.Calls.{
  GatewayOutcome, call_gateway_authorize, call_gateway_capture, call_gateway_void,
  call_gateway_refund,
}
use card_payment_service.Payment.Transactions.{
  get_tx_authorized, create_refund_and_update_tx, save_transaction,
}

-- `5 * time.Second`, in nanoseconds
abbrev pub lock_ttl : ℕ
lock_ttl = 5 * 1_000_000_000

-- `fmt.Sprintf("lock:tx:%s", transactionID)`
abbrev pub lock_key : String → String
lock_key id = String.◌++◌ "lock:tx:" id

-- the update that follows `Authorize` and `Charge`: a reason of failure, or a reference
abbrev pub charge_changes : GatewayOutcome → TransactionChanges
charge_changes o =
    if is_failed o.status
    then record {
      status = o.status;
      gateway_ref = none;
      failed_reason = o.failed_reason;
      captured_at = none;
    }
    else record {
      status = o.status;
      gateway_ref = o.gateway_ref;
      failed_reason = none;
      captured_at = none;
    }

-- the update that follows `Capture` and `Void`
abbrev pub outcome_changes : GatewayOutcome → Option Time → TransactionChanges
outcome_changes o captured_at = record {
  status = o.status;
  gateway_ref = none;
  failed_reason = o.failed_reason;
  captured_at = captured_at;
}

module _ (x : Externals) (g : Gateway x.Outside) where
  -- `uuid.MustParse`
  unfoldable pub or_panic : Option Uuid → M (World x) Uuid
  or_panic none = panicking must_parse
  or_panic (some u) = pure u

  unfoldable pub must_parse_uuid : String → M (World x) Uuid
  unfolding or_panic
  must_parse_uuid text = or_panic (x.parse_uuid text)

  -- `tokenizeCardToGateway`
  unfoldable pub tokenize_card_to_gateway : ChargeInput → M (World x) (Option TokenizeResponse)
  tokenize_card_to_gateway input =
      let req : TokenizeRequest = record {
        card_number = input.card_number;
        expiry_month = input.expiry_month;
        expiry_year = input.expiry_year;
        cvv = input.cvv;
      } in
      catch (send (Call.tokenize req) (g.tokenize_card req)) (λ _. raise tokenize_card) pure

  -- `aquireLock`: the value of the lock
  unfoldable pub acquire_lock : Uuid → M (World x) String
  acquire_lock id = do
    value ← acquire x (lock_key (x.uuid_text id)) lock_ttl
    raise_if (str_eq value "") duplicate_request
    pure value

  -- `return out, domain.ErrGatewayRejected` where the gateway has failed, else `return out, nil`
  unfoldable pub finish : {A : Type 0} → TransactionStatus → A → M (World x) A
  finish status out = if is_failed status then return_both out gateway_rejected else pure out

  -- `Authorize` and `Charge` from the save of the pending transaction on
  unfoldable pub charge_with :
      (Transaction → M (World x) GatewayOutcome)
      → PaymentType
      → ChargeInput
      → Uuid
      → Option TokenizeResponse
      → M (World x) ChargeOutput
  charge_with call payment_type input idem_key tokenized = do
    tx ← save_transaction x input payment_type tokenized
    o ← call tx
    updated ← update_transaction x tx.id is_pending (charge_changes o)
    row ← deref updated
    let out : ChargeOutput = record { transaction_id = row.id; status = row.status }
    _ ←
        spawn (record {
          key = idem_key;
          merchant_id = input.merchant_id;
          response = encode_charge x out;
        })
    finish o.status out

  -- the rest of `Authorize` and `Charge` after the lookup of the idempotency key
  unfoldable pub charge_or_replay :
      (Transaction → M (World x) GatewayOutcome)
      → PaymentType
      → ChargeInput
      → Uuid
      → Option ChargeOutput
      → M (World x) ChargeOutput
  charge_or_replay call payment_type input idem_key (some out) = pure out
  charge_or_replay call payment_type input idem_key none = do
    tokenized ← tokenize_card_to_gateway input
    charge_with call payment_type input idem_key tokenized

  -- `Authorize`
  unfoldable pub authorize : ChargeInput → M (World x) ChargeOutput
  authorize input = do
    idem_key ← must_parse_uuid input.idempotency_key
    cached ← cached_idempotency x (decode_charge x) idem_key input.merchant_id
    charge_or_replay (call_gateway_authorize x g) PaymentType.authorize_capture input idem_key
        cached

  -- `Charge`
  unfoldable pub charge : ChargeInput → M (World x) ChargeOutput
  charge input = do
    idem_key ← must_parse_uuid input.idempotency_key
    cached ← cached_idempotency x (decode_charge x) idem_key input.merchant_id
    charge_or_replay (call_gateway_capture x g) PaymentType.direct_charge input idem_key cached

  -- `updatePayload.CapturedAt = &now`, on a capture alone
  unfoldable pub capture_time : TransactionStatus → M (World x) (Option Time)
  capture_time status =
      if is_captured status then (do now ← take_outside x.now; pure (some now)) else pure none

  -- `Capture` under the lock
  unfoldable pub capture_locked : CaptureInput → M (World x) CaptureOutput
  capture_locked input = do
    tx ← get_tx_authorized x input.transaction_id input.merchant_id
    o ← call_gateway_capture x g tx
    captured_at ← capture_time o.status
    updated ← update_transaction x tx.id is_authorized (outcome_changes o captured_at)
    row ← deref updated
    finish o.status (record { transaction_id = row.id; status = row.status })

  -- `Void` under the lock
  unfoldable pub void_locked : VoidInput → M (World x) VoidOutput
  void_locked input = do
    tx ← get_tx_authorized x input.transaction_id input.merchant_id
    raise_if (is_voided tx.status) transaction_already_voided
    o ← call_gateway_void x g tx
    updated ← update_transaction x tx.id is_authorized (outcome_changes o none)
    row ← deref updated
    finish o.status (record { transaction_id = row.id; status = row.status })

  -- the lock, the deferred release, and what runs under the lock
  unfoldable pub with_lock : {A : Type 0} → Uuid → M (World x) A → M (World x) A
  with_lock id body = do
    value ← acquire_lock id
    deferred (release x (lock_key (x.uuid_text id)) value) body

  -- `Capture`
  unfoldable pub capture : CaptureInput → M (World x) CaptureOutput
  capture input = with_lock input.transaction_id (capture_locked input)

  -- `Void`
  unfoldable pub void : VoidInput → M (World x) VoidOutput
  void input = with_lock input.transaction_id (void_locked input)

  -- `Refund` under the lock
  unfoldable pub refund_locked : RefundInput → M (World x) RefundOutput
  refund_locked input = do
    found ← find_transaction x input.transaction_id input.merchant_id
    tx ← deref found
    raise_if (is_refunded tx.status) transaction_already_refunded
    raise_if (not (is_captured tx.status)) transaction_not_refundable
    refund_ref ← call_gateway_refund x g tx
    id ← take_outside x.new_uuid
    create_refund_and_update_tx x tx.id (record {
      id = id;
      transaction_id = tx.id;
      merchant_id = input.merchant_id;
      refund_ref = refund_ref;
      amount = tx.amount;
      status = RefundStatus.processing;
      failed_reason = none;
      created_at = 0;
      updated_at = 0;
    })
    let out : RefundOutput = record { refund_id = id; status = RefundStatus.processing }
    _ ← spawn (record {
      key = input.idempotency_key;
      merchant_id = input.merchant_id;
      response = encode_refund x out;
    })
    pure out

  unfoldable pub refund_or_replay : RefundInput → Option RefundOutput → M (World x) RefundOutput
  refund_or_replay input (some out) = pure out
  refund_or_replay input none = with_lock input.transaction_id (refund_locked input)

  -- `Refund`
  unfoldable pub refund : RefundInput → M (World x) RefundOutput
  refund input = do
    cached ← cached_idempotency x (decode_refund x) input.idempotency_key input.merchant_id
    refund_or_replay input cached
