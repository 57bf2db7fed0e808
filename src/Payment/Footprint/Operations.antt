-- ===== src/Payment/Footprint/Operations.antt =====
-- The same of its operations, and of a history.
use card_payment_service.Prelude.{String, List, [], ◌∷◌, ◌≡◌, Option, none, some, Bool, false}
use card_payment_service.Domain.{
  Uuid, Json, IdempotencyKey, Transaction, Refund, TransactionStatus, PaymentType, is_failed,
  is_captured,
}
use card_payment_service.Effect.{M}
use card_payment_service.Effect.Keeps.{Keeps, Anything, Keeps-if}
use card_payment_service.External.Table.{TableLaws}
use card_payment_service.Gateway.{Gateway, TokenizeResponse, RefundResponse}
use card_payment_service.World.{Externals, World, SaveJob, TransactionChanges}
use card_payment_service.Repository.{
  create_transaction, find_transaction, update_transaction, idempotency_key_columns, create_refund,
}
use card_payment_service.Lock.{acquire, release}
use card_payment_service.Payment.Types.{
  ChargeInput, ChargeOutput, CaptureInput, VoidInput, RefundInput, RefundOutput,
}
use card_payment_service.Payment.Idempotency.{cached_idempotency, save_idempotency}
use card_payment_service.Payment.Calls.{
  GatewayOutcome, call_gateway_authorize, call_gateway_capture, call_gateway_void, refund_ref_of,
  call_gateway_refund,
}
use card_payment_service.Payment.Transactions.{
  get_tx_authorized, save_transaction, create_refund_and_update_tx,
}
use card_payment_service.Payment.History.{Event, handle, run}
use card_payment_service.Payment.Service.{
  or_panic, must_parse_uuid, tokenize_card_to_gateway, acquire_lock, finish, charge_with,
  charge_or_replay, authorize, charge, capture_time, capture_locked, void_locked, with_lock,
  capture, void, refund_locked, refund_or_replay, refund,
}
use card_payment_service.Payment.Footprint.{Footprint, same_rules, on_refunds-same}

module _ (x : Externals) (li : TableLaws x.idempotency_keys idempotency_key_columns)
    (g : Gateway x.Outside) where
  or_panic-same :
      {strict : Bool} (o : Option Uuid) → Keeps (Footprint li strict) Anything (or_panic x g o)
  unfolding or_panic
  or_panic-same none = search same_rules
  or_panic-same (some u) = search same_rules

  must_parse_uuid-same :
      {strict : Bool} (text : String)
      → Keeps (Footprint li strict) Anything (must_parse_uuid x g text)
  unfolding must_parse_uuid
  must_parse_uuid-same text = or_panic-same _

  tokenize_card_to_gateway-same :
      {strict : Bool} (input : ChargeInput)
      → Keeps (Footprint li strict) Anything (tokenize_card_to_gateway x g input)
  unfolding tokenize_card_to_gateway
  tokenize_card_to_gateway-same input = search same_rules

  finish-same :
      {strict : Bool} {A : Type 0} (status : TransactionStatus) (out : A)
      → Keeps (Footprint li strict) Anything (finish x g status out)
  unfolding finish
  finish-same status out =
      Keeps-if (is_failed status) (λ _. search same_rules) (λ _. search same_rules)

  update_transaction-same :
      {strict : Bool} (id : Uuid) (p : TransactionStatus → Bool) (c : TransactionChanges)
      → Keeps (Footprint li strict) Anything (update_transaction x id p c)
  unfolding update_transaction
  update_transaction-same id p c = search same_rules

  cached_idempotency-same :
      {strict : Bool} {A : Type 0} (decode : Json → Option A) (key merchant_id : Uuid)
      → Keeps (Footprint li strict) Anything (cached_idempotency x decode key merchant_id)
  unfolding cached_idempotency
  cached_idempotency-same decode key merchant_id = search same_rules depth 9

  save_transaction-same :
      {strict : Bool} (input : ChargeInput) (payment_type : PaymentType)
      (t : Option TokenizeResponse)
      → Keeps (Footprint li strict) Anything (save_transaction x input payment_type t)
  unfolding save_transaction create_transaction
  save_transaction-same input payment_type t = search same_rules depth 9

  call_gateway_authorize-same :
      {strict : Bool} (tx : Transaction)
      → Keeps (Footprint li strict) Anything (call_gateway_authorize x g tx)
  unfolding call_gateway_authorize
  call_gateway_authorize-same tx = search same_rules

  call_gateway_capture-same :
      {strict : Bool} (tx : Transaction)
      → Keeps (Footprint li strict) Anything (call_gateway_capture x g tx)
  unfolding call_gateway_capture
  call_gateway_capture-same tx = search same_rules depth 9

  call_gateway_void-same :
      {strict : Bool} (tx : Transaction)
      → Keeps (Footprint li strict) Anything (call_gateway_void x g tx)
  unfolding call_gateway_void
  call_gateway_void-same tx = search same_rules depth 9

  get_tx_authorized-same :
      {strict : Bool} (id merchant_id : Uuid)
      → Keeps (Footprint li strict) Anything (get_tx_authorized x id merchant_id)
  unfolding get_tx_authorized find_transaction
  get_tx_authorized-same id merchant_id = search same_rules depth 12

  charge_with-same :
      {strict : Bool} (call : Transaction → M (World x) GatewayOutcome) (payment_type : PaymentType)
      (input : ChargeInput) (key : Uuid) (t : Option TokenizeResponse)
      → ((tx : Transaction) → Keeps (Footprint li strict) Anything (call tx))
      → Keeps (Footprint li strict) Anything (charge_with x g call payment_type input key t)
  unfolding charge_with
  charge_with-same call payment_type input key t calls =
      search (same_rules, save_transaction-same, update_transaction-same, finish-same) depth 12

  charge_or_replay-same :
      {strict : Bool} (call : Transaction → M (World x) GatewayOutcome) (payment_type : PaymentType)
      (input : ChargeInput) (key : Uuid) (cached : Option ChargeOutput)
      → ((tx : Transaction) → Keeps (Footprint li strict) Anything (call tx))
      → Keeps
          (Footprint li strict)
          Anything
          (charge_or_replay x g call payment_type input key cached)
  unfolding charge_or_replay
  charge_or_replay-same call payment_type input key (some out) calls = search same_rules
  charge_or_replay-same call payment_type input key none calls =
      search (same_rules, tokenize_card_to_gateway-same, charge_with-same)

  pub authorize-same :
      {strict : Bool} (input : ChargeInput)
      → Keeps (Footprint li strict) Anything (authorize x g input)
  unfolding authorize
  authorize-same input = search (
    same_rules, must_parse_uuid-same, cached_idempotency-same, charge_or_replay-same,
    call_gateway_authorize-same,
  )

  pub charge-same :
      {strict : Bool} (input : ChargeInput)
      → Keeps (Footprint li strict) Anything (charge x g input)
  unfolding charge
  charge-same input = search (
    same_rules, must_parse_uuid-same, cached_idempotency-same, charge_or_replay-same,
    call_gateway_capture-same,
  )

  with_lock-same :
      {strict : Bool} {A : Type 0} (id : Uuid) {body : M (World x) A}
      → Keeps (Footprint li strict) Anything body
      → Keeps (Footprint li strict) Anything (with_lock x g id body)
  unfolding with_lock acquire_lock acquire release
  with_lock-same id k = search same_rules depth 12

  capture_time-same :
      {strict : Bool} (status : TransactionStatus)
      → Keeps (Footprint li strict) Anything (capture_time x g status)
  unfolding capture_time
  capture_time-same status =
      Keeps-if (is_captured status) (λ _. search same_rules) (λ _. search same_rules)

  capture_locked-same :
      {strict : Bool} (input : CaptureInput)
      → Keeps (Footprint li strict) Anything (capture_locked x g input)
  unfolding capture_locked
  capture_locked-same input =
      search
        (
          same_rules, get_tx_authorized-same, call_gateway_capture-same, capture_time-same,
          update_transaction-same, finish-same,
        )
        depth 14

  void_locked-same :
      {strict : Bool} (input : VoidInput)
      → Keeps (Footprint li strict) Anything (void_locked x g input)
  unfolding void_locked
  void_locked-same input =
      search
        (
          same_rules, get_tx_authorized-same, call_gateway_void-same, update_transaction-same,
          finish-same,
        )
        depth 14

  pub capture-same :
      {strict : Bool} (input : CaptureInput)
      → Keeps (Footprint li strict) Anything (capture x g input)
  unfolding capture
  capture-same input = with_lock-same _ (capture_locked-same input)

  pub void-same :
      {strict : Bool} (input : VoidInput) → Keeps (Footprint li strict) Anything (void x g input)
  unfolding void
  void-same input = with_lock-same _ (void_locked-same input)

  pub save_idempotency-same :
      {strict : Bool} (job : SaveJob)
      → Keeps (Footprint li strict) Anything (save_idempotency x job)
  unfolding save_idempotency
  save_idempotency-same job = search same_rules depth 9

  refund_ref_of-same :
      {strict : Bool} (resp : Option RefundResponse)
      → Keeps (Footprint li strict) Anything (refund_ref_of x g resp)
  refund_ref_of-same none = search same_rules
  refund_ref_of-same (some resp) = search same_rules

  call_gateway_refund-same :
      {strict : Bool} (tx : Transaction)
      → Keeps (Footprint li strict) Anything (call_gateway_refund x g tx)
  unfolding call_gateway_refund
  call_gateway_refund-same tx = search (same_rules, refund_ref_of-same) depth 9

  create_refund_and_update_tx-same :
      (id : Uuid) (row : Refund)
      → Keeps (Footprint li false) Anything (create_refund_and_update_tx x id row)
  unfolding create_refund_and_update_tx create_refund
  create_refund_and_update_tx-same id row =
      search (same_rules, on_refunds-same, update_transaction-same) depth 9

  refund_locked-same :
      (input : RefundInput) → Keeps (Footprint li false) Anything (refund_locked x g input)
  unfolding refund_locked find_transaction
  refund_locked-same input =
      search (same_rules, call_gateway_refund-same, create_refund_and_update_tx-same) depth 16

  refund_or_replay-same :
      (input : RefundInput) (cached : Option RefundOutput)
      → Keeps (Footprint li false) Anything (refund_or_replay x g input cached)
  unfolding refund_or_replay
  refund_or_replay-same input (some out) = search same_rules
  refund_or_replay-same input none = with_lock-same _ (refund_locked-same input)

  pub refund-same : (input : RefundInput) → Keeps (Footprint li false) Anything (refund x g input)
  unfolding refund
  refund-same input = search (same_rules, cached_idempotency-same, refund_or_replay-same)

  handle-keys :
      (e : Event) (w : World x) (k : Uuid) (r : IdempotencyKey)
      → li.at w.idempotency_keys k ≡ some r
      → li.at (handle x g e w).idempotency_keys k ≡ some r
  unfolding handle
  handle-keys (Event.authorize input) w = ((authorize-same {strict = false} input).at w).0.keys
  handle-keys (Event.charge input) w = ((charge-same {strict = false} input).at w).0.keys
  handle-keys (Event.capture input) w = ((capture-same {strict = false} input).at w).0.keys
  handle-keys (Event.void input) w = ((void-same {strict = false} input).at w).0.keys
  handle-keys (Event.refund input) w = ((refund-same input).at w).0.keys
  handle-keys (Event.save job) w = ((save_idempotency-same {strict = false} job).at w).0.keys

  -- The rows of the idempotency keys stay over a history.
  pub run-keys :
      (es : List Event) (w : World x) (k : Uuid) (r : IdempotencyKey)
      → li.at w.idempotency_keys k ≡ some r
      → li.at (run x g es w).idempotency_keys k ≡ some r
  unfolding run
  run-keys [] w k r h = h
  run-keys (e ∷ es) w k r h = run-keys es (handle x g e w) k r (handle-keys e w k r h)
