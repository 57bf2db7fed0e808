-- ===== src/Tests/Answers.antt =====
-- The answers of `Capture` and `Void`, at a concrete input.
use card_payment_service.Prelude.{ℕ, String, ◌≡◌, refl, Option, none, some, true}
use card_payment_service.Effect.{Result, ok, err, both, panic, IsCalm}
use card_payment_service.Gateway.Mock.Calm.{capture-IsCalm, void-IsCalm}
use card_payment_service.Domain.{error_text}
use card_payment_service.Repository.{transaction_columns, fits_text}
use card_payment_service.Payment.Calls.{GatewayOutcome, capture_outcome, void_outcome}
use card_payment_service.Payment.Service.{acquire_lock, capture, void}
use card_payment_service.Payment.Guards.{ledger}
use card_payment_service.Payment.Settle.Once.{Answers, IsDone}
use card_payment_service.Payment.Answers.{IsBrief, IsOpen, IsReady}
use card_payment_service.Payment.Answers.Requests.{capture-Answers, void-Answers}
use card_payment_service.Demo.{
  demo, demo_gateway, demo_parts, demo_transaction, demo_world, transactions-TableLaws,
  transactions-at, transactions-up, transactions-storable,
}
use card_payment_service.Tests.Payments.{the_row, the_void}
use card_payment_service.Tests.Open.{service_run}

fits_any : (n : ℕ) (text : Option String) → fits_text transactions-TableLaws.storable n text ≡ true
fits_any n none = refl
fits_any n (some text) = transactions-storable n text

calm-IsBrief :
    {A : Type 0} (outcome : A → GatewayOutcome) (r : Result A)
    → IsCalm r
    → IsBrief transactions-TableLaws.storable outcome r
calm-IsBrief outcome (ok a) calm = fits_any 500 (outcome a).failed_reason
calm-IsBrief outcome (err e) calm = transactions-storable 500 (error_text e)
calm-IsBrief outcome (both a e) calm = transactions-storable 500 (error_text e)
calm-IsBrief outcome (panic p) calm = calm

row_fits : transaction_columns.fits transactions-TableLaws.storable demo_transaction ≡ true
row_fits = simp transactions-storable

opened : IsOpen demo transactions-TableLaws demo_gateway 7 3 demo_transaction
opened = record {
  id_is = refl;
  owner = refl;
  status = refl;
  ref = "gw_mock_001";
  reference = refl;
  fits = row_fits;
}

is_ready : IsReady demo transactions-TableLaws demo_gateway 7 3 demo_transaction opened demo_world
unfolding service_run
is_ready = (transactions-up demo_world.transactions, transactions-at demo_world.transactions 7)

had : (acquire_lock demo demo_gateway 7 demo_world).0 ≡ ok "11111111111111111111u"
unfolding service_run
had = refl

capture-Answers_example :
    let (r, v) = capture demo demo_gateway the_row demo_world in
    Answers r × IsDone demo transactions-TableLaws demo_gateway 7 (ledger v)
capture-Answers_example =
    capture-Answers demo transactions-TableLaws demo_gateway the_row demo_world demo_transaction
      "11111111111111111111u" opened is_ready had
      (λ q o. calm-IsBrief capture_outcome _ (capture-IsCalm demo_parts q o))

void-Answers_example :
    let (r, v) = void demo demo_gateway the_void demo_world in
    Answers r × IsDone demo transactions-TableLaws demo_gateway 7 (ledger v)
void-Answers_example =
    void-Answers demo transactions-TableLaws demo_gateway the_void demo_world demo_transaction
      "11111111111111111111u" opened is_ready had
      (λ q o. calm-IsBrief void_outcome _ (void-IsCalm demo_parts q o))
