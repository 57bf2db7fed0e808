-- ===== src/Repository/Queries.antt =====
-- The methods of the five repositories.
use card_payment_service.Repository.Columns.{transaction_columns, merchant_columns}
use card_payment_service.Prelude.{String, Option, none, some, Bool, ◌==◌, ◌&&◌, str_eq, ltb}
use card_payment_service.Domain.{
  Uuid, pos, Error, duplicated_key, duplicate_idempotency_key, Transaction, Refund, Merchant,
  ApiKey, IdempotencyKey, TransactionStatus, MerchantStatus, PaymentType, nil_uuid,
}
use card_payment_service.Effect.{M, pure, raise, catch, ◌>>=◌}
use card_payment_service.World.{
  Externals, World, TransactionChanges, on_transactions, on_merchants, on_api_keys,
  on_idempotency_keys, on_refunds,
}

-- `var data domain.Transaction`
abbrev pub zero_transaction : Transaction
zero_transaction = record {
  id = nil_uuid;
  merchant_id = nil_uuid;
  gateway_ref = none;
  payment_type = PaymentType.direct_charge;
  card_token = "";
  card_last_four = "";
  card_brand = "";
  amount = pos 0;
  currency = "";
  status = TransactionStatus.other "";
  description = none;
  idempotency_key = "";
  failed_reason = none;
  captured_at = none;
  created_at = 0;
  updated_at = 0;
}

abbrev pub zero_merchant : Merchant
zero_merchant = record {
  id = nil_uuid;
  name = "";
  email = "";
  webhook_url = none;
  status = MerchantStatus.other "";
  created_at = 0;
  updated_at = 0;
}

-- What an update leaves in the variable where it matched no row: gorm assigns the changes to it. The
-- time of the update, which nothing reads, is left out.
abbrev pub unmatched_transaction : TransactionChanges → Transaction
unmatched_transaction changes = transaction_columns.apply 0 changes zero_transaction

abbrev pub unmatched_merchant : MerchantStatus → Merchant
unmatched_merchant status = merchant_columns.apply 0 status zero_merchant

-- The row that an update returned, or the variable's where it matched none.
abbrev pub returned {ℓ} : {A : Type ℓ} → A → Option A → A
returned zero_row none = zero_row
returned zero_row (some row) = row

abbrev on_duplicate : Error → Error
on_duplicate duplicated_key = duplicate_idempotency_key
on_duplicate e = e

module _ (x : Externals) where
  -- `transactionRepository.Create`: gorm fills in the row, which the caller goes on to use.
  unfoldable pub create_transaction : Transaction → M (World x) Transaction
  create_transaction tx =
      catch (on_transactions (x.transactions.create tx)) (λ e. raise (on_duplicate e)) pure

  -- `FindByIDAndMerchantID`
  unfoldable pub find_transaction : Uuid → Uuid → M (World x) (Option Transaction)
  find_transaction id merchant_id = do
    row ← on_transactions (x.transactions.first (λ _ r. r.id == id && r.merchant_id == merchant_id))
    pure (some row)

  -- `UpdateByQueryAndReturn`, on a query of an id and a status
  unfoldable pub update_transaction :
      Uuid → (TransactionStatus → Bool) → TransactionChanges → M (World x) (Option Transaction)
  update_transaction id has_status changes = do
    row ← on_transactions (x.transactions.updates (λ r. r.id == id && has_status r.status) changes)
    pure (some (returned (unmatched_transaction changes) row))

  -- `refundRepository.Create`
  unfoldable pub create_refund : Refund → M (World x) Refund
  create_refund refund = on_refunds (x.refunds.create refund)

  -- `idempotencyKeyRepository.Create`
  unfoldable pub create_idempotency_key : IdempotencyKey → M (World x) IdempotencyKey
  create_idempotency_key row = on_idempotency_keys (x.idempotency_keys.create row)

  -- `FindByKeyAndMerchantID`: of the merchant, and not expired by the database's clock
  unfoldable pub find_idempotency_key : Uuid → Uuid → M (World x) (Option IdempotencyKey)
  find_idempotency_key key merchant_id = do
    row ← on_idempotency_keys (
        x.idempotency_keys.first
          (λ now r. r.key == key && r.merchant_id == merchant_id && ltb now r.expires_at))
    pure (some row)

  -- `merchangeRepository`
  unfoldable pub create_merchant : Merchant → M (World x) Merchant
  create_merchant merchant = on_merchants (x.merchants.create merchant)

  unfoldable pub find_merchant_by_email : String → M (World x) (Option Merchant)
  find_merchant_by_email email = do
    row ← on_merchants (x.merchants.first (λ _ r. str_eq r.email email))
    pure (some row)

  unfoldable pub find_merchant_by_id : Uuid → M (World x) (Option Merchant)
  find_merchant_by_id id = do
    row ← on_merchants (x.merchants.first (λ _ r. r.id == id))
    pure (some row)

  -- `UpdateAndReturn`, on the status
  unfoldable pub update_merchant : Uuid → MerchantStatus → M (World x) (Option Merchant)
  update_merchant id status = do
    row ← on_merchants (x.merchants.updates (λ r. r.id == id) status)
    pure (some (returned (unmatched_merchant status) row))

  -- `apiKeyRepository`
  unfoldable pub create_api_key : ApiKey → M (World x) ApiKey
  create_api_key api_key = on_api_keys (x.api_keys.create api_key)

  unfoldable pub find_api_key : String → M (World x) (Option ApiKey)
  find_api_key hashed_key = do
    row ← on_api_keys (x.api_keys.first (λ _ r. str_eq r.hashed_key hashed_key))
    pure (some row)
