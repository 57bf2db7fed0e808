-- ===== src/Tests/Open.antt =====
-- One name that unfolds all that a run of the payment service computes with.
use card_payment_service.Effect
use card_payment_service.Domain
use card_payment_service.World
use card_payment_service.Repository
use card_payment_service.Lock
use card_payment_service.Gateway.Mock
use card_payment_service.Gateway.TestCards
use card_payment_service.Payment.Types
use card_payment_service.Payment.Idempotency
use card_payment_service.Payment.Calls
use card_payment_service.Payment.Transactions
use card_payment_service.Payment.Service
use card_payment_service.Payment.History
use card_payment_service.Crypto
use card_payment_service.Merchant
use card_payment_service.Auth
use card_payment_service.Http
use card_payment_service.Http.Handlers
use card_payment_service.Http.Routes
use card_payment_service.Demo

unfoldable pub service_run : Unit {0}
unfolding Effect.effects Effect.pure Effect.raise Effect.panicking Effect.catch Domain.error_text
    Domain.status_of_text Domain.refund_status_of_text World.on_transactions World.on_merchants
    World.on_api_keys World.on_idempotency_keys World.on_refunds World.on_redis World.take_outside
    World.send World.spawn Repository.create_transaction Repository.find_transaction
    Repository.update_transaction Repository.create_refund Repository.create_idempotency_key
    Repository.find_idempotency_key Lock.acquire Lock.release Mock.new_string Mock.lift
    Mock.authorize Mock.capture Mock.void Mock.refund Mock.build_success_response Mock.validated
    Mock.tokenize_scenario Mock.tokenize_card TestCards.get_test_card_scenario Types.json_field
    Types.encode_charge Types.encode_refund Types.decode_charge Types.decode_refund
    Idempotency.cached_idempotency Idempotency.save_idempotency Calls.call_gateway_authorize
    Calls.call_gateway_capture Calls.call_gateway_void Calls.call_gateway_refund
    Transactions.get_tx_authorized Transactions.create_refund_and_update_tx
    Transactions.save_transaction Service.must_parse_uuid Service.tokenize_card_to_gateway
    Service.acquire_lock Service.finish Service.charge_with Service.charge_or_replay
    Service.authorize Service.charge Service.capture_time Service.capture_locked Service.void_locked
    Service.with_lock Service.capture Service.void Service.refund_locked Service.refund_or_replay
    Service.refund History.handle History.run Demo.demo_parts_run Repository.create_merchant
    Repository.find_merchant_by_email Repository.find_merchant_by_id Repository.update_merchant
    Repository.create_api_key Repository.find_api_key Crypto.hex_encode Crypto.hash_sha256
    Merchant.key_prefix Merchant.map_register_merchant Merchant.map_register_api_key
    Merchant.generate_secret Merchant.create_secret Merchant.registered Merchant.register
    Merchant.activate_found Merchant.activate Auth.validate_api_key Http.bad_request
    Http.unauthorized Http.from_error Http.get_transaction_id Http.get_merchant_id
    Http.get_idempotency_key Http.get_payment_meta Handlers.must_get_uuid Handlers.must_get_text
    Handlers.to_charge_input Handlers.respond Handlers.charge_bound Handlers.handle_authorize
    Handlers.handle_charge Handlers.with_meta Handlers.handle_capture Handlers.handle_void
    Handlers.handle_refund Handlers.handle_register Handlers.handle_activate Routes.merchant_auth
    Routes.require_idempotency_key Routes.serve
service_run = tt
