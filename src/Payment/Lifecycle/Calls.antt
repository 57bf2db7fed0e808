-- ===== src/Payment/Lifecycle/Calls.antt =====
-- What the steps of an operation do to the rows of the transactions, and which status follows from
-- the gateway's answer.
use card_payment_service.Prelude.{ℕ, String, ◌≡◌, Option, none, some, true, arith}
use card_payment_service.Domain.{
  Uuid, Json, Transaction, TransactionStatus, is_pending, is_authorized, is_captured, is_failed,
}
use card_payment_service.Effect.Keeps.{
  Keeps, Gives, Anything, IsPreorder, Keeps-pure, Keeps-raise, Keeps-catch, Keeps-bind, Keeps-deref,
  Keeps-raise_if, Keeps-return_both, Keeps-deferred, Keeps-if, any_rules,
}
use card_payment_service.External.Table.{TableLaws}
use card_payment_service.Gateway.{
  Gateway, AuthorizeResponse, CaptureResponse, VoidResponse, RefundResponse,
}
use card_payment_service.World.{Externals, SaveJob}
use card_payment_service.Repository.{
  transaction_columns, create_idempotency_key, find_idempotency_key,
}
use card_payment_service.Lock.{acquire, release}
use card_payment_service.Payment.Types.{ChargeInput}
use card_payment_service.Payment.Calls.{
  GatewayOutcome, authorize_outcome, capture_outcome, void_outcome, refund_ref_of,
  call_gateway_authorize, call_gateway_capture, call_gateway_void, call_gateway_refund,
}
use card_payment_service.Payment.Idempotency.{cached_idempotency, save_idempotency}
use card_payment_service.Payment.Transactions.{get_tx_authorized}
use card_payment_service.Payment.Service.{
  or_panic, must_parse_uuid, tokenize_card_to_gateway, acquire_lock, finish, charge_changes,
}
use card_payment_service.Payment.Lifecycle.{
  Step, hold, charge as charge_step, reject, capture as capture_step, void as void_step, fail,
  refund as refund_step, RowsEvolve, RowsEvolve-preorder,
}
use card_payment_service.Payment.Lifecycle.Rows.{
  on_refunds-evolve, on_idempotency_keys-evolve, on_redis-evolve, take_outside-evolve, send-evolve,
  spawn-evolve, find_transaction-evolve, create_transaction-evolve, update_transaction-evolve,
}

pub ruleset evolve_rules = (
  any_rules, RowsEvolve-preorder, on_refunds-evolve, on_idempotency_keys-evolve, on_redis-evolve,
  take_outside-evolve, send-evolve, spawn-evolve, find_transaction-evolve,
)

module _ (x : Externals) (l : TableLaws x.transactions transaction_columns)
    (g : Gateway x.Outside) where
  pub acquire-evolve :
      (key : String) (ttl : ℕ) → Keeps (RowsEvolve x l) Anything (acquire x key ttl)
  unfolding acquire
  acquire-evolve key ttl = search evolve_rules

  pub release-evolve : (key value : String) → Keeps (RowsEvolve x l) Anything (release x key value)
  unfolding release
  release-evolve key value = search evolve_rules

  find_idempotency_key-evolve :
      (key merchant_id : Uuid)
      → Keeps (RowsEvolve x l) Anything (find_idempotency_key x key merchant_id)
  unfolding find_idempotency_key
  find_idempotency_key-evolve key merchant_id = search evolve_rules

  pub cached_idempotency-evolve :
      {A : Type 0} (decode : Json → Option A) (key merchant_id : Uuid)
      → Keeps (RowsEvolve x l) Anything (cached_idempotency x decode key merchant_id)
  unfolding cached_idempotency
  cached_idempotency-evolve decode key merchant_id =
      search (evolve_rules, find_idempotency_key-evolve)

  pub save_idempotency-evolve :
      (job : SaveJob) → Keeps (RowsEvolve x l) Anything (save_idempotency x job)
  unfolding save_idempotency create_idempotency_key
  save_idempotency-evolve job = search evolve_rules

  pub get_tx_authorized-evolve :
      (id merchant_id : Uuid) → Keeps (RowsEvolve x l) Anything (get_tx_authorized x id merchant_id)
  unfolding get_tx_authorized
  get_tx_authorized-evolve id merchant_id = search evolve_rules depth 9

  or_panic-evolve : (o : Option Uuid) → Keeps (RowsEvolve x l) Anything (or_panic x g o)
  unfolding or_panic
  or_panic-evolve none = search evolve_rules
  or_panic-evolve (some u) = search evolve_rules

  pub must_parse_uuid-evolve :
      (text : String) → Keeps (RowsEvolve x l) Anything (must_parse_uuid x g text)
  unfolding must_parse_uuid
  must_parse_uuid-evolve text = or_panic-evolve (x.parse_uuid text)

  pub tokenize_card_to_gateway-evolve :
      (input : ChargeInput) → Keeps (RowsEvolve x l) Anything (tokenize_card_to_gateway x g input)
  unfolding tokenize_card_to_gateway
  tokenize_card_to_gateway-evolve input = search evolve_rules

  pub acquire_lock-evolve : (id : Uuid) → Keeps (RowsEvolve x l) Anything (acquire_lock x g id)
  unfolding acquire_lock
  acquire_lock-evolve id = search (evolve_rules, acquire-evolve)

  pub finish-evolve :
      {A : Type 0} (status : TransactionStatus) (out : A)
      → Keeps (RowsEvolve x l) Anything (finish x g status out)
  unfolding finish
  finish-evolve status out =
      Keeps-if (is_failed status) (λ _. search evolve_rules) (λ _. search evolve_rules)

  -- What the service makes of the gateway's answer is a step from the status that it acts on.
  abbrev pub FromPending : GatewayOutcome → Type 0
  FromPending o = Step TransactionStatus.pending o.status

  abbrev pub FromAuthorized : GatewayOutcome → Type 0
  FromAuthorized o = Step TransactionStatus.authorized o.status

  authorize_outcome-step : (r : Option AuthorizeResponse) → FromPending (authorize_outcome r)
  authorize_outcome-step none = reject
  authorize_outcome-step (some resp) = hold

  capture_outcome-step :
      (r : Option CaptureResponse)
      → FromPending (capture_outcome r) × FromAuthorized (capture_outcome r)
  capture_outcome-step none = (reject, fail)
  capture_outcome-step (some resp) = (charge_step, capture_step)

  void_outcome-step : (r : Option VoidResponse) → FromAuthorized (void_outcome r)
  void_outcome-step none = fail
  void_outcome-step (some resp) = void_step

  pub call_gateway_authorize-evolve :
      (tx : Transaction) → Keeps (RowsEvolve x l) FromPending (call_gateway_authorize x g tx)
  unfolding call_gateway_authorize
  call_gateway_authorize-evolve tx =
      let o = RowsEvolve-preorder x l in
      Keeps-catch o (send-evolve x l _ _) (λ e. Keeps-pure o _ reject)
        (λ r _. Keeps-pure o _ (authorize_outcome-step r))

  pub call_gateway_capture-evolve :
      (tx : Transaction)
      → Keeps (RowsEvolve x l) (λ o. FromPending o × FromAuthorized o) (call_gateway_capture x g tx)
  unfolding call_gateway_capture
  call_gateway_capture-evolve tx =
      let o = RowsEvolve-preorder x l in
      Keeps-bind o (Keeps-deref o tx.gateway_ref) λ ref _.
        Keeps-catch o (send-evolve x l _ _) (λ e. Keeps-pure o _ (reject, fail))
          (λ r _. Keeps-pure o _ (capture_outcome-step r))

  pub call_gateway_void-evolve :
      (tx : Transaction) → Keeps (RowsEvolve x l) FromAuthorized (call_gateway_void x g tx)
  unfolding call_gateway_void
  call_gateway_void-evolve tx =
      let o = RowsEvolve-preorder x l in
      Keeps-bind o (Keeps-deref o tx.gateway_ref) λ ref _.
        Keeps-catch o (send-evolve x l _ _) (λ e. Keeps-pure o _ fail)
          (λ r _. Keeps-pure o _ (void_outcome-step r))

  refund_ref_of-evolve :
      (r : Option RefundResponse) → Keeps (RowsEvolve x l) Anything (refund_ref_of x g r)
  refund_ref_of-evolve none = search evolve_rules
  refund_ref_of-evolve (some resp) = search evolve_rules

  pub call_gateway_refund-evolve :
      (tx : Transaction) → Keeps (RowsEvolve x l) Anything (call_gateway_refund x g tx)
  unfolding call_gateway_refund
  call_gateway_refund-evolve tx = search (evolve_rules, refund_ref_of-evolve)

  -- An update that finds its status in the condition makes a step.
  pub pending_step :
      (s : TransactionStatus)
      → Step TransactionStatus.pending s
      → (st : TransactionStatus) → is_pending st ≡ true
      → Step st s
  pending_step s step TransactionStatus.pending h = step
  pending_step s step _ h = cc

  pub authorized_step :
      (s : TransactionStatus)
      → Step TransactionStatus.authorized s
      → (st : TransactionStatus) → is_authorized st ≡ true
      → Step st s
  authorized_step s step TransactionStatus.authorized h = step
  authorized_step s step _ h = cc

  pub captured_step :
      (st : TransactionStatus) → is_captured st ≡ true → Step st TransactionStatus.refunded
  captured_step TransactionStatus.captured h = refund_step
  captured_step _ h = cc

  pub status-charge_changes : (o : GatewayOutcome) → (charge_changes o).status ≡ o.status
  status-charge_changes o = ground arith
