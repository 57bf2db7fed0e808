-- ===== src/Tests/Routes.antt =====
-- Runs of the routes, and their theorems at concrete inputs.
use card_payment_service.Prelude.{◌≡◌, refl, none, some, [], ◌∷◌, true}
use card_payment_service.Domain.{Merchant, MerchantStatus, ApiKey, TransactionStatus, pos}
use card_payment_service.Effect.{ok}
use card_payment_service.Effect.Triple.{Ends}
use card_payment_service.World.{World}
use card_payment_service.Http.{Context, Payload, succeed, fail}
use card_payment_service.Http.Routes.{Route, serve}
use card_payment_service.Http.Routes.Meta.{IsRefusal, serve_refuses}
use card_payment_service.Http.Routes.Replayed.{IsReplied, IsUncharged, serve-charge}
use card_payment_service.Http.Routes.Hold.{IsServed, IsDeclined, serve_authorize}
use card_payment_service.Payment.Guards.{Never}
use card_payment_service.Demo.{
  demo, demo_gateway, demo_world, merchants-TableLaws, api_keys-TableLaws, transactions-TableLaws,
  idempotency_keys-TableLaws,
}
use card_payment_service.Tests.Open.{service_run}

abbrev owner_row : Merchant
owner_row = record {
  id = 3;
  name = "shop";
  email = "shop@example.com";
  webhook_url = none;
  status = MerchantStatus.active;
  created_at = 1;
  updated_at = 1;
}

abbrev owner_key : ApiKey
owner_key = record {
  id = 4;
  merchant_id = 3;
  key_prefix = "k";
  hashed_key = "01";
  revoked_at = none;
  created_at = 1;
}

abbrev pub owner_world : World demo
owner_world = record demo_world {
  merchants = record { rows = owner_row ∷ []; time = 100; up = true };
  api_keys = record { rows = owner_key ∷ []; time = 100; up = true };
}

abbrev pub capture_request : Context
capture_request = record {
  api_key = "k";
  idempotency_header = "1u";
  transaction_id = "1111111u";
  body = none;
  merchant_value = none;
  idempotency_value = none;
}

abbrev authorize_request : Context
authorize_request = record capture_request {
  body = some (record {
    amount = pos 500;
    card_number = "4111111111111111";
    currency = "THB";
    cvv = "123";
    description = none;
    expiry_month = "12";
    expiry_year = "2030";
  });
}

authorize_served :
    (serve demo demo_gateway Route.authorize authorize_request owner_world).0
    ≡ ok (succeed 201 (Payload.payment 21 TransactionStatus.authorized))
unfolding service_run
authorize_served = refl

capture_served :
    (serve demo demo_gateway Route.capture capture_request owner_world).0
    ≡ ok (fail 400 "missing idempotency key")
unfolding service_run
capture_served = refl

refund_served :
    (serve demo demo_gateway Route.refund capture_request owner_world).0
    ≡ ok (fail 400 "idempotency key invalid type")
unfolding service_run
refund_served = refl

serve_refuses_example :
    let (r, v) = serve demo demo_gateway Route.refund capture_request owner_world in
    Ends
      (IsRefusal demo merchants-TableLaws api_keys-TableLaws demo_gateway owner_world)
      (λ _. Never)
      Never
      Never
      r
      v
serve_refuses_example =
    serve_refuses demo merchants-TableLaws api_keys-TableLaws demo_gateway owner_world Route.refund
      capture_request refl refl

serve_authorize_example :
    let (r, v) = serve demo demo_gateway Route.authorize authorize_request owner_world in
    Ends
      (IsServed demo transactions-TableLaws idempotency_keys-TableLaws merchants-TableLaws
        api_keys-TableLaws demo_gateway authorize_request owner_world)
      (λ _. Never)
      (IsDeclined demo transactions-TableLaws idempotency_keys-TableLaws merchants-TableLaws
        api_keys-TableLaws demo_gateway authorize_request owner_world)
      (IsDeclined demo transactions-TableLaws idempotency_keys-TableLaws merchants-TableLaws
        api_keys-TableLaws demo_gateway authorize_request owner_world)
      r
      v
serve_authorize_example =
    serve_authorize demo transactions-TableLaws idempotency_keys-TableLaws merchants-TableLaws
      api_keys-TableLaws demo_gateway authorize_request owner_world

serve-charge_example :
    let (r, v) = serve demo demo_gateway Route.charge authorize_request owner_world in
    Ends
      (IsReplied demo transactions-TableLaws idempotency_keys-TableLaws merchants-TableLaws
        api_keys-TableLaws demo_gateway authorize_request owner_world)
      (λ _. Never)
      (IsUncharged demo transactions-TableLaws idempotency_keys-TableLaws merchants-TableLaws
        api_keys-TableLaws demo_gateway authorize_request owner_world)
      (IsUncharged demo transactions-TableLaws idempotency_keys-TableLaws merchants-TableLaws
        api_keys-TableLaws demo_gateway authorize_request owner_world)
      r
      v
serve-charge_example =
    serve-charge demo transactions-TableLaws idempotency_keys-TableLaws merchants-TableLaws
      api_keys-TableLaws demo_gateway authorize_request owner_world
