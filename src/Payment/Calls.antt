-- ===== src/Payment/Calls.antt =====
-- internal/service/payment_gateway.go: each call of the gateway and what the service makes of its
-- answer. `*tx.GatewayRef` panics where the transaction has no reference.
use card_payment_service.Prelude.{String, Option, none, some}
use card_payment_service.Domain.{TransactionStatus, Transaction, error_text, gateway_rejected}
use card_payment_service.Effect.{M, pure, raise, catch, deref, ◌>>=◌}
use card_payment_service.Gateway.{
  Gateway, AuthorizeRequest, AuthorizeResponse, CaptureRequest, CaptureResponse, VoidRequest,
  VoidResponse, RefundRequest, RefundResponse,
}
use card_payment_service.World.{Externals, World, Call, send}

-- the results `status`, `gatewayRef` and `failedReason`
pub record GatewayOutcome : Type 0 where
  pub status : TransactionStatus
  pub gateway_ref : Option String
  pub failed_reason : Option String

abbrev pub failure : String → GatewayOutcome
failure reason = record {
  status = TransactionStatus.failed;
  gateway_ref = none;
  failed_reason = some reason;
}

abbrev pub success : TransactionStatus → Option String → GatewayOutcome
success status ref = record { status = status; gateway_ref = ref; failed_reason = none }

abbrev pub authorize_outcome : Option AuthorizeResponse → GatewayOutcome
authorize_outcome none = failure "empty gateway response"
authorize_outcome (some resp) = success TransactionStatus.authorized (some resp.gateway_ref)

abbrev pub capture_outcome : Option CaptureResponse → GatewayOutcome
capture_outcome none = failure "empty gateway response"
capture_outcome (some resp) = success TransactionStatus.captured (some resp.gateway_ref)

abbrev pub void_outcome : Option VoidResponse → GatewayOutcome
void_outcome none = failure "empty gateway response"
void_outcome (some resp) = success TransactionStatus.voided none

module _ (x : Externals) (g : Gateway x.Outside) where
  unfoldable pub call_gateway_authorize : Transaction → M (World x) GatewayOutcome
  call_gateway_authorize tx =
      let req : AuthorizeRequest = record {
        amount = tx.amount;
        currency = tx.currency;
        order_id = x.uuid_text tx.id;
      } in
      catch (send (Call.authorize req) (g.authorize req)) (λ e. pure (failure (error_text e)))
        (λ resp. pure (authorize_outcome resp))

  unfoldable pub call_gateway_capture : Transaction → M (World x) GatewayOutcome
  call_gateway_capture tx = do
    gateway_ref ← deref tx.gateway_ref
    let req : CaptureRequest = record { gateway_ref = gateway_ref; order_id = x.uuid_text tx.id }
    catch (send (Call.capture req) (g.capture req)) (λ e. pure (failure (error_text e)))
        (λ resp. pure (capture_outcome resp))

  unfoldable pub call_gateway_void : Transaction → M (World x) GatewayOutcome
  call_gateway_void tx = do
    gateway_ref ← deref tx.gateway_ref
    let req : VoidRequest = record { order_id = x.uuid_text tx.id; gateway_ref = gateway_ref }
    catch (send (Call.void req) (g.void req)) (λ e. pure (failure (error_text e)))
        (λ resp. pure (void_outcome resp))

  abbrev pub refund_ref_of : Option RefundResponse → M (World x) (Option String)
  refund_ref_of none = raise gateway_rejected
  refund_ref_of (some resp) = pure (some resp.refund_ref)

  unfoldable pub call_gateway_refund : Transaction → M (World x) (Option String)
  call_gateway_refund tx = do
    gateway_ref ← deref tx.gateway_ref
    let req : RefundRequest = record { gateway_ref = gateway_ref; amount = tx.amount }
    resp ← send (Call.refund req) (g.refund req)
    refund_ref_of resp
