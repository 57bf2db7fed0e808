-- ===== src/Http/Handlers.antt =====
-- internal/handler: the handlers of payments and merchants, and the mapper.
pub mod Merchants
use card_payment_service.Prelude.{String, Option, none, some, inl, inr}
use card_payment_service.Domain.{Uuid, error_text}
use card_payment_service.Effect.{
  M, pure, catch, deref, panicking, missing_value, type_assertion, ◌>>=◌,
}
use card_payment_service.External.Table.{Reply}
use card_payment_service.Gateway.{Gateway}
use card_payment_service.World.{Externals, World}
use card_payment_service.Payment.Types.{ChargeInput, ChargeOutput}
use card_payment_service.Payment.Service
use card_payment_service.Merchant.{RegisterInput, register, activate, merchant_status_text}
use card_payment_service.Http.{
  Response, Payload, succeed, fail, bad_request, from_error, Value, Context,
  AuthorizePaymentRequest, PaymentRequestMeta, get_payment_meta,
}

-- `c.MustGet(key).(uuid.UUID)` and `c.MustGet(key).(string)`
unfoldable pub must_get_uuid : {W : Type 0} → Option Value → M W Uuid
must_get_uuid none = panicking missing_value
must_get_uuid (some (Value.text s)) = panicking type_assertion
must_get_uuid (some (Value.uuid u)) = pure u

unfoldable pub must_get_text : {W : Type 0} → Option Value → M W String
must_get_text none = panicking missing_value
must_get_text (some (Value.text s)) = pure s
must_get_text (some (Value.uuid u)) = panicking type_assertion

-- `ToChargeInput`
unfoldable pub to_charge_input : {W : Type 0} → Context → AuthorizePaymentRequest → M W ChargeInput
to_charge_input c req = do
  merchant_id ← must_get_uuid c.merchant_value
  idem_key ← must_get_text c.idempotency_value
  pure (record {
    amount = req.amount;
    card_number = req.card_number;
    currency = req.currency;
    cvv = req.cvv;
    description = req.description;
    expiry_month = req.expiry_month;
    expiry_year = req.expiry_year;
    idempotency_key = idem_key;
    merchant_id = merchant_id;
  })

module _ (x : Externals) (g : Gateway x.Outside) where
  -- `if err != nil { FromError } else { respond }`
  unfoldable pub respond : {A : Type 0} → M (World x) A → (A → Response) → M (World x) Response
  respond m f = catch m (λ e. pure (from_error e)) (λ a. pure (f a))

  -- `Authorize` and `Charge`, on the body that was bound
  unfoldable pub charge_bound :
      (ChargeInput → M (World x) ChargeOutput)
      → (ChargeOutput → Response)
      → Context
      → Option AuthorizePaymentRequest
      → M (World x) Response
  charge_bound service answer c none = pure bad_request
  charge_bound service answer c (some req) = do
    input ← to_charge_input c req
    respond (service input) answer

  unfoldable pub handle_authorize : Context → M (World x) Response
  handle_authorize c =
      charge_bound (Service.authorize x g)
        (λ out. succeed 201 (Payload.payment out.transaction_id out.status)) c c.body

  unfoldable pub handle_charge : Context → M (World x) Response
  handle_charge c =
      charge_bound (Service.charge x g)
        (λ out. succeed 200 (Payload.payment out.transaction_id out.status)) c c.body

  -- `if err != nil { response.Error(c, http.StatusBadRequest, err.Error()) }`
  unfoldable pub with_meta :
      (PaymentRequestMeta → M (World x) Response) → Reply PaymentRequestMeta → M (World x) Response
  with_meta f (inl meta) = f meta
  with_meta f (inr e) = pure (fail 400 (error_text e))

  unfoldable pub handle_capture : Context → M (World x) Response
  handle_capture c =
      with_meta
        (λ meta.
          respond
            (Service.capture x g
              (record { transaction_id = meta.transaction_id; merchant_id = meta.merchant_id }))
            (λ out. succeed 200 (Payload.payment out.transaction_id out.status)))
        (get_payment_meta x c)

  unfoldable pub handle_void : Context → M (World x) Response
  handle_void c =
      with_meta
        (λ meta.
          respond
            (Service.void x g
              (record { transaction_id = meta.transaction_id; merchant_id = meta.merchant_id }))
            (λ out. succeed 200 (Payload.payment out.transaction_id out.status)))
        (get_payment_meta x c)

  unfoldable pub handle_refund : Context → M (World x) Response
  handle_refund c =
      with_meta
        (λ meta.
          respond
            (Service.refund x g (record {
              transaction_id = meta.transaction_id;
              merchant_id = meta.merchant_id;
              idempotency_key = meta.idempotency_key;
            }))
            (λ out. succeed 200 (Payload.refund out.refund_id out.status)))
        (get_payment_meta x c)

module _ (x : Externals) where
  -- `MerchantHandler.Register`, on the body as `ShouldBindJSON` reads it
  unfoldable pub handle_register : Option RegisterInput → M (World x) Response
  handle_register none = pure bad_request
  handle_register (some req) =
      catch (register x req) (λ e. pure (from_error e))
        λ out. do answer ← deref out; pure (succeed 201 (Payload.registration answer))

  -- `MerchantHandler.Activate`, on the address in the body
  unfoldable pub handle_activate : Option String → M (World x) Response
  handle_activate none = pure bad_request
  handle_activate (some email) =
      catch (activate x email) (λ e. pure (from_error e))
        λ found. do
          m ← deref found
          pure (succeed 200 (Payload.activation m.name m.email (merchant_status_text m.status)))
