-- ===== src/Payment/Settle/Asked.antt =====
-- What Capture and Void ask of the gateway, and what it answers.
use card_payment_service.Prelude.{String, ◌≡◌, ◌⊎◌, refl, Option, none, some, inl, inr}
use card_payment_service.Domain.{Transaction, TransactionStatus, is_captured}
use card_payment_service.Effect.Triple.{
  Triple, Triple-pure, Triple-deref_some, Triple-catch, Triple-bind, Triple-if,
}
use card_payment_service.External.Table.{TableLaws}
use card_payment_service.Gateway.{Gateway, CaptureResponse, VoidResponse}
use card_payment_service.World.{Externals, World, Call}
use card_payment_service.Repository.{transaction_columns}
use card_payment_service.Payment.Calls.{
  GatewayOutcome, capture_outcome, void_outcome, call_gateway_capture, call_gateway_void,
}
use card_payment_service.Payment.Service.{capture_time}
use card_payment_service.Payment.Guards.{Ledger, ledger, IsQuiet}
use card_payment_service.Payment.Settle.Steps.{Sent, send-triple, take_outside-triple}

module _ (x : Externals) where
  abbrev pub capture_call : Transaction → String → Call
  capture_call tx ref = Call.capture (record { gateway_ref = ref; order_id = x.uuid_text tx.id })

  abbrev pub void_call : Transaction → String → Call
  void_call tx ref = Call.void (record { order_id = x.uuid_text tx.id; gateway_ref = ref })

module _ (x : Externals) (l : TableLaws x.transactions transaction_columns) (g : Gateway x.Outside)
    (w : Ledger x) where
  abbrev pub Outcome : TransactionStatus → GatewayOutcome → Type 0
  Outcome target o = (o.status ≡ target) ⊎ (o.status ≡ TransactionStatus.failed)

  capture_outcome-Outcome :
      (r : Option CaptureResponse) → Outcome TransactionStatus.captured (capture_outcome r)
  capture_outcome-Outcome none = inr refl
  capture_outcome-Outcome (some resp) = inl refl

  void_outcome-Outcome :
      (r : Option VoidResponse) → Outcome TransactionStatus.voided (void_outcome r)
  void_outcome-Outcome none = inr refl
  void_outcome-Outcome (some resp) = inl refl

  module _ (tx : Transaction) (ref : String) (e : tx.gateway_ref ≡ some ref) where
    abbrev Answered : Call → TransactionStatus → GatewayOutcome → World x → Type 0
    Answered c target o v = Sent x l w c v × Outcome target o

    pub call_gateway_capture-triple :
        Triple
          (λ v. IsQuiet x l w (ledger v))
          (call_gateway_capture x g tx)
          (Answered (capture_call x tx ref) TransactionStatus.captured)
          (λ _. Sent x l w (capture_call x tx ref))
          (Sent x l w (capture_call x tx ref))
          (Sent x l w (capture_call x tx ref))
    unfolding call_gateway_capture
    call_gateway_capture-triple = Triple-deref_some _ tx.gateway_ref ref e (
        Triple-catch (send-triple x l w _ _) (λ e. Triple-pure _ (λ v s. (s, inr refl)))
          (λ r. Triple-pure _ (λ v s. (s, capture_outcome-Outcome r))))

    pub call_gateway_void-triple :
        Triple
          (λ v. IsQuiet x l w (ledger v))
          (call_gateway_void x g tx)
          (Answered (void_call x tx ref) TransactionStatus.voided)
          (λ _. Sent x l w (void_call x tx ref))
          (Sent x l w (void_call x tx ref))
          (Sent x l w (void_call x tx ref))
    unfolding call_gateway_void
    call_gateway_void-triple = Triple-deref_some _ tx.gateway_ref ref e (
        Triple-catch (send-triple x l w _ _) (λ e. Triple-pure _ (λ v s. (s, inr refl)))
          (λ r. Triple-pure _ (λ v s. (s, void_outcome-Outcome r))))

  -- The time of a capture is read from outside.
  pub capture_time-triple :
      {E X : World x → Type 0} (P : Ledger x → Type 0) (status : TransactionStatus)
      → Triple (λ v. P (ledger v)) (capture_time x g status) (λ _ v. P (ledger v)) (λ _. E) E X
  unfolding capture_time
  capture_time-triple P status =
      Triple-if (is_captured status)
        (λ _. Triple-bind (take_outside-triple x l w P x.now) (λ now. Triple-pure _ (λ v p. p)))
        (λ _. Triple-pure none (λ v p. p))
