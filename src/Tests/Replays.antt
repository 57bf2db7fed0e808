-- ===== src/Tests/Replays.antt =====
-- Runs of the idempotency keys, and their theorems at concrete inputs.
use card_payment_service.Prelude.{◌≡◌, ap, none, true, [], ◌∷◌, ◌+◌, ltb}
use card_payment_service.Domain.{TransactionStatus, RefundStatus}
use card_payment_service.Effect.{ok}
use card_payment_service.World.{SaveJob, World}
use card_payment_service.Payment.Types.{ChargeOutput, RefundOutput, encode_charge, decode_charge}
use card_payment_service.Payment.Idempotency.{one_day, cached_idempotency, save_idempotency}
use card_payment_service.Payment.Replay.Saved.{cached_idempotency-save_idempotency}
use card_payment_service.Demo.{
  demo, demo_gateway, demo_world, idempotency_keys-TableLaws, idempotency_keys-at,
  idempotency_keys-clock, idempotency_keys-up, idempotency_keys-refers,
}
use card_payment_service.Payment.History.{Event, run}
use card_payment_service.Tests.Payments.{the_refund}
use card_payment_service.Tests.Open.{service_run}

abbrev output : ChargeOutput
output = record { transaction_id = 7; status = TransactionStatus.authorized }

abbrev refund_output : RefundOutput
refund_output = record { refund_id = 9; status = RefundStatus.processing }

abbrev job : SaveJob
job = record { key = 5; merchant_id = 3; response = encode_charge demo output }

up_now : idempotency_keys-TableLaws.up demo_world.idempotency_keys ≡ true
up_now = idempotency_keys-up demo_world.idempotency_keys

free_now : idempotency_keys-TableLaws.at demo_world.idempotency_keys 5 ≡ none
unfolding service_run
free_now = idempotency_keys-at demo_world.idempotency_keys 5

-- the saved key, a refund of a transaction that is not captured, and another save
abbrev later : World demo
later =
    run demo demo_gateway (Event.refund the_refund ∷ Event.save job ∷ [])
      (save_idempotency demo job demo_world).1

up_then : idempotency_keys-TableLaws.up later.idempotency_keys ≡ true
unfolding service_run
up_then = idempotency_keys-up later.idempotency_keys

live_then :
    ltb
      (idempotency_keys-TableLaws.clock later.idempotency_keys)
      ((demo.now demo_world.outside).0 + one_day)
    ≡ true
unfolding service_run
live_then =
    ap (λ t. ltb t ((demo.now demo_world.outside).0 + one_day))
      (idempotency_keys-clock later.idempotency_keys)

cached_idempotency-save_idempotency_example :
    (cached_idempotency demo (decode_charge demo) 5 3 later).0
    ≡ ok (decode_charge demo (encode_charge demo output))
cached_idempotency-save_idempotency_example =
    cached_idempotency-save_idempotency demo idempotency_keys-TableLaws job (decode_charge demo)
      demo_gateway (Event.refund the_refund ∷ Event.save job ∷ []) demo_world up_now free_now
      (idempotency_keys-refers demo_world.idempotency_keys _) up_then live_then
