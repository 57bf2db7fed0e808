-- ===== src/Http/Routes.antt =====
-- internal/router/router.go and internal/middleware: the payment routes, with the middleware that
-- runs before each handler.
pub mod Meta
pub mod Bound
pub mod Hold
pub mod Replayed
pub mod Table
pub mod Guarded
use card_payment_service.Prelude.{String, Option, none, some, str_eq, if◌then◌else◌}
use card_payment_service.Domain.{Merchant, error_text, missing_api_key, invalid_api_key}
use card_payment_service.Effect.{M, pure, catch, deref, ◌>>=◌}
use card_payment_service.Gateway.{Gateway}
use card_payment_service.World.{Externals, World}
use card_payment_service.Auth.{validate_api_key}
use card_payment_service.Http.{Response, unauthorized, Value, Context}
use card_payment_service.Http.Handlers.{
  handle_authorize, handle_charge, handle_capture, handle_void, handle_refund,
}

pub data Route : Type 0 where
  authorize charge refund capture void : Route

module _ (x : Externals) (g : Gateway x.Outside) where
  -- `MerchantAuth`, before the rest
  unfoldable pub merchant_auth : (Context → M (World x) Response) → Context → M (World x) Response
  merchant_auth next c =
      if str_eq c.api_key ""
      then pure (unauthorized (error_text missing_api_key))
      else catch (validate_api_key x c.api_key)
          (λ _. pure (unauthorized (error_text invalid_api_key)))
          λ found. do
            merchant ← deref found
            next (record c { merchant_value = some (Value.uuid merchant.id) })

  -- `RequireIdempotencyKey`, before the rest
  unfoldable pub require_idempotency_key :
      (Context → M (World x) Response) → Context → M (World x) Response
  require_idempotency_key next c =
      if str_eq c.idempotency_header ""
      then pure (unauthorized "missing idempotency key")
      else next (record c { idempotency_value = some (Value.text c.idempotency_header) })

  -- the payment routes
  unfoldable pub serve : Route → Context → M (World x) Response
  serve Route.authorize c = merchant_auth (require_idempotency_key (handle_authorize x g)) c
  serve Route.charge c = merchant_auth (require_idempotency_key (handle_charge x g)) c
  serve Route.refund c = merchant_auth (require_idempotency_key (handle_refund x g)) c
  serve Route.capture c = merchant_auth (handle_capture x g) c
  serve Route.void c = merchant_auth (handle_void x g) c
