-- ===== src/Payment/History.antt =====
-- Histories of the payment service: requests one after the other, and background saves of
-- idempotency keys, which the scheduler runs in any order.
use card_payment_service.Prelude.{List, [], ◌∷◌}
use card_payment_service.Gateway.{Gateway}
use card_payment_service.World.{Externals, World, SaveJob}
use card_payment_service.Payment.Types.{ChargeInput, CaptureInput, VoidInput, RefundInput}
use card_payment_service.Payment.Idempotency.{save_idempotency}
use card_payment_service.Payment.Service

pub data Event : Type 0 where
  authorize charge : ChargeInput → Event
  capture : CaptureInput → Event
  void : VoidInput → Event
  refund : RefundInput → Event
  save : SaveJob → Event

module _ (x : Externals) (g : Gateway x.Outside) where
  -- the state after an event, however the call ends
  unfoldable pub handle : Event → World x → World x
  handle (Event.authorize input) w = (Service.authorize x g input w).1
  handle (Event.charge input) w = (Service.charge x g input w).1
  handle (Event.capture input) w = (Service.capture x g input w).1
  handle (Event.void input) w = (Service.void x g input w).1
  handle (Event.refund input) w = (Service.refund x g input w).1
  handle (Event.save job) w = (save_idempotency x job w).1

  unfoldable pub run : List Event → World x → World x
  run [] w = w
  run (e ∷ es) w = run es (handle e w)
