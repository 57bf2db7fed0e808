-- ===== src/Webhook/Events.antt =====
-- tools/webhook-simulator/events.go: the events and their payloads.
pub mod Built
use Prim.Native.String
use card_payment_service.Prelude.{
  zero, String, Bool, true, false, List, [], ◌∷◌, ◌++◌, str_eq, if◌then◌else◌,
}
use card_payment_service.Domain.{ℤ, pos, Time, message}
use card_payment_service.Effect.{M, pure, raise, ◌>>=◌}
use card_payment_service.Webhook.{Field, Tool, Desk, take}

-- `type EventType string` and `type WebhookStatus string`
abbrev pub EventType : Type 0
EventType = String

abbrev pub WebhookStatus : Type 0
WebhookStatus = String

abbrev pub event_refund_completed : EventType
event_refund_completed = "refund.completed"

abbrev pub event_refund_failed : EventType
event_refund_failed = "refund.failed"

abbrev pub event_payment_success : EventType
event_payment_success = "payment.success"

abbrev pub event_payment_failed : EventType
event_payment_failed = "payment.failed"

abbrev pub webhook_status_completed : WebhookStatus
webhook_status_completed = "completed"

abbrev pub webhook_status_failed : WebhookStatus
webhook_status_failed = "failed"

abbrev pub webhook_status_captured : WebhookStatus
webhook_status_captured = "captured"

pub record WebhookPayload : Type 0 where
  pub event : EventType
  pub refund_ref : String
  pub gateway_ref : String
  pub status : WebhookStatus
  pub amount : ℤ
  pub currency : String
  pub occurred_at : Time

abbrev pub is_zero : ℤ → Bool
is_zero (pos zero) = true
is_zero _ = false

-- a field with `omitempty`
abbrev pub omit : Bool → String → Field → List (String × Field)
omit empty key value = if empty then [] else (key, value) ∷ []

-- the tags of `WebhookPayload`: the fields that its JSON has, in their order
unfoldable pub payload_fields : WebhookPayload → List (String × Field)
payload_fields p =
    ("event", Field.text p.event)
      ∷ omit (str_eq p.refund_ref "") "refund_ref" (Field.text p.refund_ref)
    ++ ("gateway_ref", Field.text p.gateway_ref)
      ∷ ("status", Field.text p.status)
      ∷ omit (is_zero p.amount) "amount" (Field.number p.amount)
    ++ ("currency", Field.text p.currency) ∷ ("occurred_at", Field.time p.occurred_at) ∷ []

-- the payload that `buildPayload` starts from
abbrev pub base_payload : EventType → String → Time → WebhookPayload
base_payload event gateway_ref now = record {
  event = event;
  refund_ref = "";
  gateway_ref = gateway_ref;
  status = "";
  amount = pos 0;
  currency = "THB";
  occurred_at = now;
}

module _ (t : Tool) where
  -- `base.RefundRef = "rf_" + uuid.NewString()`, with the status and the amount
  unfoldable pub refund_payload : WebhookStatus → ℤ → WebhookPayload → M (Desk t) WebhookPayload
  refund_payload status amount base = do
    id ← take t.new_string
    pure (record base { refund_ref = String.◌++◌ "rf_" id; status = status; amount = amount })

  -- the switch of `buildPayload`
  unfoldable pub fill_payload : EventType → WebhookPayload → M (Desk t) WebhookPayload
  fill_payload event base =
      if str_eq event event_refund_completed
      then refund_payload webhook_status_completed (pos 100000) base
      else if str_eq event event_refund_failed
      then refund_payload webhook_status_failed (pos 100000) base
      else if str_eq event event_payment_success
      then pure (record base { status = webhook_status_captured; amount = pos 150000 })
      else if str_eq event event_payment_failed
      then pure (record base { status = webhook_status_failed })
      else raise (message (String.◌++◌ "unknown event type: " event))

  unfoldable pub build_payload : EventType → String → M (Desk t) WebhookPayload
  build_payload event gateway_ref = do
    now ← take t.now
    fill_payload event (base_payload event gateway_ref now)

-- `availableEvents`
abbrev pub available_events : List String
available_events =
    event_refund_completed ∷ event_refund_failed ∷ event_payment_success ∷ event_payment_failed ∷ []
