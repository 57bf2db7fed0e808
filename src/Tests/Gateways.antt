-- ===== src/Tests/Gateways.antt =====
-- Runs of the mock gateway, and its theorem at a concrete input.
use card_payment_service.Prelude.{◌≡◌, refl, some}
use card_payment_service.Domain.{pos, card_declined}
use card_payment_service.Effect.{ok, err}
use card_payment_service.Gateway.{AuthorizeRequest, AuthorizeResponse}
use card_payment_service.Gateway.Mock
use card_payment_service.Gateway.Mock.Accepts.{IsAccepted, authorize-IsAccepted}
use card_payment_service.Demo.{demo_parts}
use card_payment_service.Tests.Open.{service_run}

abbrev hold : AuthorizeRequest
hold = record { amount = pos 500; currency = "THB"; order_id = "1u" }

abbrev granted : AuthorizeResponse
granted = record { gateway_ref = "gw_mock_001"; status = "authorized" }

declined_hold :
    (Mock.authorize demo_parts (record hold { amount = pos 99999 }) (100, 20)).0 ≡ err card_declined
unfolding service_run
declined_hold = refl

granted-hold : (Mock.authorize demo_parts hold (100, 20)).0 ≡ ok (some granted)
unfolding service_run
granted-hold = refl

authorize-IsAccepted_example : IsAccepted demo_parts hold "gw_mock_001" "1u" (107, 30)
authorize-IsAccepted_example =
    authorize-IsAccepted demo_parts hold (100, 20) granted granted-hold "1u" refl (107, 30)
