-- ===== src/Tests/Payments.antt =====
-- Runs of the payment service, and its theorems at concrete inputs.
use card_payment_service.Prelude.{◌≡◌, refl, none, some, true, List, [], ◌∷◌}
use card_payment_service.Domain.{Transaction, TransactionStatus, RefundStatus, pos}
use card_payment_service.Effect.{ok, panic, nil_dereference}
use card_payment_service.Effect.Triple.{Ends}
use card_payment_service.World.{World}
use card_payment_service.Payment.Types.{ChargeInput, CaptureInput, VoidInput, RefundInput}
use card_payment_service.Payment.Service.{authorize, charge, capture, void, refund}
use card_payment_service.Payment.History.{Event, run}
use card_payment_service.Payment.Guards.{ledger, IsQuiet, Never}
use card_payment_service.Payment.Lifecycle.{Evolves}
use card_payment_service.Payment.Lifecycle.Requests.{run_lifecycle}
use card_payment_service.Payment.Settle.Capture.{
  CaptureSettled, CaptureUnsettled, VoidSettled, VoidUnsettled,
}
use card_payment_service.Payment.Settle.Requests.{capture_settles, void_settles}
use card_payment_service.Payment.Settle.Once.{Answers, BothRefused, capture_final, void_final}
use card_payment_service.Payment.Settle.Refund.Requests.{RefundAnswer, Undone, refund_settles}
use card_payment_service.Payment.Settle.Refund.Final.{refund_final}
use card_payment_service.Payment.Authorize.Requests.{
  AuthorizeAnswer, AuthorizeRefusal, AuthorizeFailure, authorize_settles,
}
use card_payment_service.Payment.Charge.{IsStored, OnlyCard, charge_only_replays}
use card_payment_service.Demo.{
  demo, demo_gateway, demo_transaction, demo_world, transactions-TableLaws, transactions-at,
  refunds-TableLaws, idempotency_keys-TableLaws,
}
use card_payment_service.Tests.Open.{service_run}

abbrev pub the_row : CaptureInput
the_row = record { transaction_id = 7; merchant_id = 3 }

abbrev pub the_void : VoidInput
the_void = record { transaction_id = 7; merchant_id = 3 }

abbrev pub the_refund : RefundInput
the_refund = record { transaction_id = 7; merchant_id = 3; idempotency_key = 5 }

abbrev history : List Event
history = Event.refund the_refund ∷ Event.void the_void ∷ []

abbrev captured_row : Transaction
captured_row = record demo_transaction { status = TransactionStatus.captured }

abbrev pub captured_world : World demo
captured_world = record demo_world {
  transactions = record { rows = captured_row ∷ []; time = 100; up = true };
}

abbrev returned_row : Transaction
returned_row = record demo_transaction { status = TransactionStatus.refunded }

abbrev returned_world : World demo
returned_world = record demo_world {
  transactions = record { rows = returned_row ∷ []; time = 100; up = true };
}

abbrev order : ChargeInput
order = record {
  amount = pos 500;
  card_number = "4111111111111111";
  currency = "THB";
  cvv = "123";
  description = none;
  expiry_month = "12";
  expiry_year = "2030";
  idempotency_key = "u1";
  merchant_id = 3;
}

capture_once :
    (capture demo demo_gateway the_row demo_world).0
    ≡ ok (record { transaction_id = 7; status = TransactionStatus.captured })
unfolding service_run
capture_once = refl

void_once :
    (void demo demo_gateway the_void demo_world).0
    ≡ ok (record { transaction_id = 7; status = TransactionStatus.voided })
unfolding service_run
void_once = refl

refund_once :
    (refund demo demo_gateway the_refund captured_world).0
    ≡ ok (record { refund_id = 22; status = RefundStatus.processing })
unfolding service_run
refund_once = refl

capture-Answers : Answers (capture demo demo_gateway the_row demo_world).0
unfolding service_run
capture-Answers = tt

void-Answers : Answers (void demo demo_gateway the_void demo_world).0
unfolding service_run
void-Answers = tt

returned_stored : transactions-TableLaws.at returned_world.transactions 7 ≡ some returned_row
unfolding service_run
returned_stored = transactions-at returned_world.transactions 7

authorize_once :
    (authorize demo demo_gateway order demo_world).0
    ≡ ok (record { transaction_id = 21; status = TransactionStatus.authorized })
unfolding service_run
authorize_once = refl

charge_once : (charge demo demo_gateway order demo_world).0 ≡ panic nil_dereference
unfolding service_run
charge_once = refl

run_lifecycle_example : Evolves (transactions-TableLaws.at demo_world.transactions 7) (
    transactions-TableLaws.at
      (run demo demo_gateway (Event.capture the_row ∷ history) demo_world).transactions
      7)
run_lifecycle_example =
    run_lifecycle demo transactions-TableLaws demo_gateway (Event.capture the_row ∷ history)
      demo_world 7

capture_settles_example :
    let (r, v) = capture demo demo_gateway the_row demo_world in
    Ends
      (λ a v.
        CaptureSettled demo transactions-TableLaws demo_gateway
          (ledger demo_world)
          the_row
          TransactionStatus.captured
          a
          (ledger v))
      (λ a v.
        CaptureSettled demo transactions-TableLaws demo_gateway
          (ledger demo_world)
          the_row
          TransactionStatus.failed
          a
          (ledger v))
      (λ v.
        CaptureUnsettled demo transactions-TableLaws demo_gateway
          (ledger demo_world)
          the_row
          (ledger v))
      (λ v.
        CaptureUnsettled demo transactions-TableLaws demo_gateway
          (ledger demo_world)
          the_row
          (ledger v))
      r
      v
capture_settles_example =
    capture_settles demo transactions-TableLaws demo_gateway the_row demo_world

void_settles_example :
    let (r, v) = void demo demo_gateway the_void demo_world in
    Ends
      (λ a v.
        VoidSettled demo transactions-TableLaws demo_gateway
          (ledger demo_world)
          the_void
          TransactionStatus.voided
          a
          (ledger v))
      (λ a v.
        VoidSettled demo transactions-TableLaws demo_gateway
          (ledger demo_world)
          the_void
          TransactionStatus.failed
          a
          (ledger v))
      (λ v.
        VoidUnsettled demo transactions-TableLaws demo_gateway
          (ledger demo_world)
          the_void
          (ledger v))
      (λ v.
        VoidUnsettled demo transactions-TableLaws demo_gateway
          (ledger demo_world)
          the_void
          (ledger v))
      r
      v
void_settles_example = void_settles demo transactions-TableLaws demo_gateway the_void demo_world

capture_final_example :
    BothRefused demo transactions-TableLaws demo_gateway 7 3
      (run demo demo_gateway history (capture demo demo_gateway the_row demo_world).1)
capture_final_example =
    capture_final demo transactions-TableLaws demo_gateway the_row demo_world capture-Answers
      history 3

void_final_example :
    BothRefused demo transactions-TableLaws demo_gateway 7 3
      (run demo demo_gateway history (void demo demo_gateway the_void demo_world).1)
void_final_example =
    void_final demo transactions-TableLaws demo_gateway the_void demo_world void-Answers history 3

refund_settles_example :
    let (r, v) = refund demo demo_gateway the_refund captured_world in
    Ends
      (λ out v.
        RefundAnswer demo transactions-TableLaws refunds-TableLaws idempotency_keys-TableLaws
          demo_gateway the_refund captured_world out
          (ledger v))
      (λ _ v.
        Undone demo transactions-TableLaws refunds-TableLaws idempotency_keys-TableLaws demo_gateway
          the_refund captured_world
          (ledger v))
      (λ v.
        Undone demo transactions-TableLaws refunds-TableLaws idempotency_keys-TableLaws demo_gateway
          the_refund captured_world
          (ledger v))
      (λ v.
        Undone demo transactions-TableLaws refunds-TableLaws idempotency_keys-TableLaws demo_gateway
          the_refund captured_world
          (ledger v))
      r
      v
refund_settles_example =
    refund_settles demo transactions-TableLaws refunds-TableLaws idempotency_keys-TableLaws
      demo_gateway the_refund captured_world

refund_final_example :
    let v = run demo demo_gateway history returned_world in
    IsQuiet demo transactions-TableLaws
      (ledger v)
      (ledger (refund demo demo_gateway the_refund v).1)
refund_final_example =
    refund_final demo transactions-TableLaws refunds-TableLaws idempotency_keys-TableLaws
      demo_gateway the_refund returned_world returned_row returned_stored refl history

charge_only_replays_example :
    let (r, v) = charge demo demo_gateway order demo_world in
    Ends
      (IsStored demo transactions-TableLaws idempotency_keys-TableLaws demo_gateway order
        demo_world)
      (λ _. Never)
      (OnlyCard demo transactions-TableLaws idempotency_keys-TableLaws demo_gateway order
        demo_world)
      (OnlyCard demo transactions-TableLaws idempotency_keys-TableLaws demo_gateway order
        demo_world)
      r
      v
charge_only_replays_example =
    charge_only_replays demo transactions-TableLaws idempotency_keys-TableLaws demo_gateway order
      demo_world

authorize_settles_example :
    let (r, v) = authorize demo demo_gateway order demo_world in
    Ends
      (AuthorizeAnswer demo transactions-TableLaws idempotency_keys-TableLaws demo_gateway order
        demo_world)
      (AuthorizeRefusal demo transactions-TableLaws idempotency_keys-TableLaws demo_gateway order
        demo_world)
      (AuthorizeFailure demo transactions-TableLaws idempotency_keys-TableLaws demo_gateway order
        demo_world)
      (AuthorizeFailure demo transactions-TableLaws idempotency_keys-TableLaws demo_gateway order
        demo_world)
      r
      v
authorize_settles_example =
    authorize_settles demo transactions-TableLaws idempotency_keys-TableLaws demo_gateway order
      demo_world
