-- ===== src/Payment/Transactions.antt =====
-- internal/service/payment_transaction.go.
use card_payment_service.Prelude.{String, Option, none, some, Bool, true, false, not}
use card_payment_service.Domain.{
  Uuid, Transaction, TransactionStatus, PaymentType, Refund, is_authorized, is_captured,
  transaction_not_found, invalid_gateway_ref, transaction_not_capturable,
}
use card_payment_service.Effect.{M, pure, raise, raise_if, catch, deref, ◌>>=◌, ◌>>◌}
use card_payment_service.Gateway.{TokenizeResponse}
use card_payment_service.World.{Externals, World, TransactionChanges, take_outside}
use card_payment_service.Repository.{
  create_transaction, find_transaction, update_transaction, create_refund,
}
use card_payment_service.Payment.Types.{ChargeInput}

abbrev pub is_none : Option String → Bool
is_none none = true
is_none (some _) = false

abbrev pub set_status : TransactionStatus → TransactionChanges
set_status status = record {
  status = status;
  gateway_ref = none;
  failed_reason = none;
  captured_at = none;
}

module _ (x : Externals) where
  -- `getTxAuthorized`
  unfoldable pub get_tx_authorized : Uuid → Uuid → M (World x) Transaction
  get_tx_authorized id merchant_id = do
    found ← catch (find_transaction x id merchant_id) (λ _. raise transaction_not_found) pure
    tx ← deref found
    raise_if (is_none tx.gateway_ref) invalid_gateway_ref
    raise_if (not (is_authorized tx.status)) transaction_not_capturable
    pure tx

  -- `createRefundAndUpdateTx`
  unfoldable pub create_refund_and_update_tx : Uuid → Refund → M (World x) (Unit {0})
  create_refund_and_update_tx tx_id refund = do
    _ ← update_transaction x tx_id is_captured (set_status TransactionStatus.refunded)
    _ ← create_refund x refund
    pure tt

  -- `saveTransaction`
  unfoldable pub save_transaction :
      ChargeInput → PaymentType → Option TokenizeResponse → M (World x) Transaction
  save_transaction data_in payment_type tokenized = do
    token ← deref tokenized
    id ← take_outside x.new_uuid
    create_transaction x (record {
      id = id;
      merchant_id = data_in.merchant_id;
      gateway_ref = none;
      payment_type = payment_type;
      card_token = token.card_token;
      card_last_four = token.last_four;
      card_brand = token.brand;
      amount = data_in.amount;
      currency = data_in.currency;
      status = TransactionStatus.pending;
      description = data_in.description;
      idempotency_key = data_in.idempotency_key;
      failed_reason = none;
      captured_at = none;
      created_at = 0;
      updated_at = 0;
    })
