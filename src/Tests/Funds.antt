-- ===== src/Tests/Funds.antt =====
-- The refunds of a history, at a concrete input.
use card_payment_service.Prelude.{◌≡◌, ◌≢◌, refl, inr, sym, ◌∙◌, none, some, List, [], ◌∷◌}
use card_payment_service.Domain.{Uuid, Refund, message, pos}
use card_payment_service.External.Memory
use card_payment_service.External.Memory.{memory_table}
use card_payment_service.World.{Externals, World, Call}
use card_payment_service.Repository.{refund_columns, transaction_columns}
use card_payment_service.Payment.History.{Event, run}
use card_payment_service.Payment.Guards.{ledger}
use card_payment_service.Payment.Funds.{IsSound}
use card_payment_service.Payment.Funds.Backed.{run-IsSound}
use card_payment_service.Demo.{
  demo, demo_gateway, transactions-TableLaws, refunds-TableLaws, refunds-at,
  idempotency_keys-TableLaws,
}
use card_payment_service.Tests.Payments.{captured_world, the_refund}
use card_payment_service.Tests.Open.{service_run}

abbrev twice : List Event
twice = Event.refund the_refund ∷ Event.refund the_refund ∷ []

-- the second request finds the transaction refunded
one_refund :
    (Memory.row_at refund_columns (run demo demo_gateway twice captured_world).refunds.rows 22
      ≢ none)
unfolding service_run
one_refund = λ e. cc

no_refund : (k : Uuid) (r : Refund) → ¬ (refunds-TableLaws.at captured_world.refunds k ≡ some r)
unfolding Memory.row_at
no_refund k r e =
    let nothing : Memory.row_at refund_columns [] k ≡ some r =
      sym (refunds-at captured_world.refunds k) ∙ e in
    cc

captured-IsSound : IsSound demo transactions-TableLaws refunds-TableLaws (ledger captured_world)
captured-IsSound = record {
  backed = λ k r e. absurd (no_refund k r e);
  single = λ j k r q e h same. absurd (no_refund j r e);
}

run-IsSound_example :
    IsSound demo transactions-TableLaws refunds-TableLaws
      (ledger (run demo demo_gateway twice captured_world))
run-IsSound_example =
    run-IsSound demo transactions-TableLaws refunds-TableLaws idempotency_keys-TableLaws
      demo_gateway twice captured_world captured-IsSound

-- a database that answers nothing to an update
abbrev deaf : Externals
deaf = record demo {
  transactions = record (memory_table transaction_columns) {
    updates = λ p ch s. (inr (message "connection reset"), s);
  };
}

abbrev deaf_world : World deaf
deaf_world = record {
  transactions = captured_world.transactions;
  merchants = captured_world.merchants;
  api_keys = captured_world.api_keys;
  idempotency_keys = captured_world.idempotency_keys;
  refunds = captured_world.refunds;
  redis = captured_world.redis;
  outside = captured_world.outside;
  calls = [];
  background = [];
}

abbrev whole_amount : Call
whole_amount = Call.refund (record { gateway_ref = "gw_mock_001"; amount = pos 500 })

-- Where the update after the gateway's refund fails, a second request is sent to the gateway.
refunded_twice : (run deaf demo_gateway twice deaf_world).calls ≡ whole_amount ∷ whole_amount ∷ []
unfolding service_run
refunded_twice = refl
