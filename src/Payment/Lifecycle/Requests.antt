-- ===== src/Payment/Lifecycle/Requests.antt =====
-- The operations of the payment service move transactions along the lifecycle only.
use card_payment_service.Prelude.{refl, Option, none, some, List, [], ◌∷◌}
use card_payment_service.Domain.{
  Uuid, Refund, Transaction, TransactionStatus, PaymentType, is_pending, is_authorized, is_captured,
}
use card_payment_service.Effect.{M}
use card_payment_service.Effect.Keeps.{
  Keeps, Anything, Keeps-bind, Keeps-if, Keeps-deref, Keeps-deferred, Keeps-weaken, Keeps-bind_any,
  Keeps-pure_any, any_rules,
}
use card_payment_service.External.Table.{TableLaws}
use card_payment_service.Gateway.{Gateway, TokenizeResponse}
use card_payment_service.World.{Externals, World}
use card_payment_service.Repository.{transaction_columns, create_refund}
use card_payment_service.Payment.Types.{
  ChargeInput, ChargeOutput, CaptureInput, VoidInput, RefundInput, RefundOutput,
}
use card_payment_service.Payment.Calls.{GatewayOutcome, call_gateway_capture}
use card_payment_service.Payment.Transactions.{
  create_refund_and_update_tx, save_transaction, set_status,
}
use card_payment_service.Payment.Service.{
  charge_with, charge_or_replay, charge_changes, outcome_changes, authorize, charge, capture_time,
  capture_locked, void_locked, with_lock, capture, void, refund_locked, refund_or_replay, refund,
}
use card_payment_service.Payment.History.{Event, handle, run}
use card_payment_service.Payment.Lifecycle.{Evolves, RowsEvolve, RowsEvolve-preorder}
use card_payment_service.Payment.Lifecycle.Rows.{
  on_refunds-evolve, take_outside-evolve, create_transaction-evolve, update_transaction-evolve,
}
use card_payment_service.Payment.Lifecycle.Calls.{
  evolve_rules, FromPending, release-evolve, cached_idempotency-evolve, get_tx_authorized-evolve,
  must_parse_uuid-evolve, tokenize_card_to_gateway-evolve, acquire_lock-evolve, finish-evolve,
  call_gateway_authorize-evolve, call_gateway_capture-evolve, call_gateway_void-evolve,
  call_gateway_refund-evolve, pending_step, authorized_step, captured_step, status-charge_changes,
  save_idempotency-evolve,
}

module _ (x : Externals) (l : TableLaws x.transactions transaction_columns)
    (g : Gateway x.Outside) where
  save_transaction-evolve :
      (input : ChargeInput) (payment_type : PaymentType) (t : Option TokenizeResponse)
      → Keeps (RowsEvolve x l) Anything (save_transaction x input payment_type t)
  unfolding save_transaction
  save_transaction-evolve input payment_type t =
      let o = RowsEvolve-preorder x l in
      Keeps-bind o (Keeps-deref o t) λ token _.
        Keeps-bind o (take_outside-evolve x l _) λ id _. create_transaction-evolve x l _ refl

  charge_with-evolve :
      (call : Transaction → M (World x) GatewayOutcome) (payment_type : PaymentType)
      (input : ChargeInput) (key : Uuid) (t : Option TokenizeResponse)
      → ((tx : Transaction) → Keeps (RowsEvolve x l) (FromPending x l g) (call tx))
      → Keeps (RowsEvolve x l) Anything (charge_with x g call payment_type input key t)
  unfolding charge_with
  charge_with-evolve call payment_type input key t calls =
      let o = RowsEvolve-preorder x l in
      Keeps-bind o (save_transaction-evolve input payment_type t) λ tx _.
        Keeps-bind o (calls tx) λ out step.
          Keeps-bind o
            (update_transaction-evolve x l tx.id is_pending (charge_changes out)
              (rw (status-charge_changes x l g out) (pending_step x l g out.status step)))
            λ row _. search (evolve_rules, finish-evolve)

  charge_or_replay-evolve :
      (call : Transaction → M (World x) GatewayOutcome) (payment_type : PaymentType)
      (input : ChargeInput) (key : Uuid) (cached : Option ChargeOutput)
      → ((tx : Transaction) → Keeps (RowsEvolve x l) (FromPending x l g) (call tx))
      → Keeps (RowsEvolve x l) Anything (charge_or_replay x g call payment_type input key cached)
  unfolding charge_or_replay
  charge_or_replay-evolve call payment_type input key (some out) calls = search evolve_rules
  charge_or_replay-evolve call payment_type input key none calls =
      search (evolve_rules, tokenize_card_to_gateway-evolve, charge_with-evolve)

  pub authorize-evolve :
      (input : ChargeInput) → Keeps (RowsEvolve x l) Anything (authorize x g input)
  unfolding authorize
  authorize-evolve input = search (
    evolve_rules, must_parse_uuid-evolve, cached_idempotency-evolve, charge_or_replay-evolve,
    call_gateway_authorize-evolve,
  )

  call_gateway_capture-pending :
      (tx : Transaction) → Keeps (RowsEvolve x l) (FromPending x l g) (call_gateway_capture x g tx)
  call_gateway_capture-pending tx =
      Keeps-weaken (λ o steps. steps.0) (call_gateway_capture-evolve x l g tx)

  pub charge-evolve : (input : ChargeInput) → Keeps (RowsEvolve x l) Anything (charge x g input)
  unfolding charge
  charge-evolve input = search (
    evolve_rules, must_parse_uuid-evolve, cached_idempotency-evolve, charge_or_replay-evolve,
    call_gateway_capture-pending,
  )

  capture_time-evolve :
      (status : TransactionStatus) → Keeps (RowsEvolve x l) Anything (capture_time x g status)
  unfolding capture_time
  capture_time-evolve status =
      Keeps-if (is_captured status) (λ _. search evolve_rules) (λ _. search evolve_rules)

  capture_locked-evolve :
      (input : CaptureInput) → Keeps (RowsEvolve x l) Anything (capture_locked x g input)
  unfolding capture_locked
  capture_locked-evolve input =
      let o = RowsEvolve-preorder x l in
      Keeps-bind o (get_tx_authorized-evolve x l g input.transaction_id input.merchant_id) λ tx _.
        Keeps-bind o (call_gateway_capture-evolve x l g tx) λ out step.
          Keeps-bind o (capture_time-evolve out.status) λ at _.
            Keeps-bind o
              (update_transaction-evolve x l tx.id is_authorized (outcome_changes out at)
                (authorized_step x l g out.status step.1))
              λ row _. search (evolve_rules, finish-evolve)

  void_locked-evolve : (input : VoidInput) → Keeps (RowsEvolve x l) Anything (void_locked x g input)
  unfolding void_locked
  void_locked-evolve input =
      let o = RowsEvolve-preorder x l in
      Keeps-bind o (get_tx_authorized-evolve x l g input.transaction_id input.merchant_id) λ tx _.
        Keeps-bind o {P = Anything} (search any_rules) λ _ _.
          Keeps-bind o (call_gateway_void-evolve x l g tx) λ out step.
            Keeps-bind o
              (update_transaction-evolve x l tx.id is_authorized (outcome_changes out none)
                (authorized_step x l g out.status step))
              λ row _. search (evolve_rules, finish-evolve)

  with_lock-evolve :
      {A : Type 0} (id : Uuid) {body : M (World x) A}
      → Keeps (RowsEvolve x l) Anything body
      → Keeps (RowsEvolve x l) Anything (with_lock x g id body)
  unfolding with_lock
  with_lock-evolve id k =
      let o = RowsEvolve-preorder x l in
      Keeps-bind_any o (acquire_lock-evolve x l g id)
        λ value. Keeps-deferred o (release-evolve x l g _ value) k

  pub capture-evolve : (input : CaptureInput) → Keeps (RowsEvolve x l) Anything (capture x g input)
  unfolding capture
  capture-evolve input = with_lock-evolve input.transaction_id (capture_locked-evolve input)

  pub void-evolve : (input : VoidInput) → Keeps (RowsEvolve x l) Anything (void x g input)
  unfolding void
  void-evolve input = with_lock-evolve input.transaction_id (void_locked-evolve input)

  create_refund_and_update_tx-evolve :
      (id : Uuid) (row : Refund)
      → Keeps (RowsEvolve x l) Anything (create_refund_and_update_tx x id row)
  unfolding create_refund_and_update_tx create_refund
  create_refund_and_update_tx-evolve id row =
      let o = RowsEvolve-preorder x l in
      Keeps-bind_any o
        (update_transaction-evolve x l id is_captured (set_status TransactionStatus.refunded)
          (captured_step x l g))
        λ _. Keeps-bind_any o (on_refunds-evolve x l _) λ _. Keeps-pure_any o tt

  refund_locked-evolve :
      (input : RefundInput) → Keeps (RowsEvolve x l) Anything (refund_locked x g input)
  unfolding refund_locked
  refund_locked-evolve input =
      search (evolve_rules, call_gateway_refund-evolve, create_refund_and_update_tx-evolve) depth 12

  refund_or_replay-evolve :
      (input : RefundInput) (cached : Option RefundOutput)
      → Keeps (RowsEvolve x l) Anything (refund_or_replay x g input cached)
  unfolding refund_or_replay
  refund_or_replay-evolve input (some out) = search evolve_rules
  refund_or_replay-evolve input none =
      with_lock-evolve input.transaction_id (refund_locked-evolve input)

  pub refund-evolve : (input : RefundInput) → Keeps (RowsEvolve x l) Anything (refund x g input)
  unfolding refund
  refund-evolve input = search (evolve_rules, cached_idempotency-evolve, refund_or_replay-evolve)

  handle-evolve : (e : Event) (w : World x) → RowsEvolve x l w (handle x g e w)
  unfolding handle
  handle-evolve (Event.authorize input) w = ((authorize-evolve input).at w).0
  handle-evolve (Event.charge input) w = ((charge-evolve input).at w).0
  handle-evolve (Event.capture input) w = ((capture-evolve input).at w).0
  handle-evolve (Event.void input) w = ((void-evolve input).at w).0
  handle-evolve (Event.refund input) w = ((refund-evolve input).at w).0
  handle-evolve (Event.save job) w = ((save_idempotency-evolve x l g job).at w).0

  run-evolve : (es : List Event) (w : World x) → RowsEvolve x l w (run x g es w)
  unfolding run
  run-evolve [] w = (RowsEvolve-preorder x l).same w
  run-evolve (e ∷ es) w =
      (RowsEvolve-preorder x l).trans _ _ _ (handle-evolve e w) (run-evolve es (handle x g e w))

  -- Over any history of requests and background saves, in any order and with any failures of the
  -- database, Redis or the gateway, no transaction is deleted, none changes its id, merchant,
  -- payment type, card token, amount, currency or idempotency key, a new one starts pending, and
  -- every status moves along the edges pending → authorized, captured, failed; authorized →
  -- captured, voided, failed; captured → refunded.
  pub run_lifecycle :
      (es : List Event) (w : World x) (id : Uuid)
      → Evolves (l.at w.transactions id) (l.at (run x g es w).transactions id)
  run_lifecycle es w id = (run-evolve es w).row id
