-- ===== src/Webhook/Routes.antt =====
-- tools/webhook-simulator/route.go: the routes of the simulator.
pub mod Batch
use card_payment_service.Prelude.{String, Option, none, some, List, [], ◌∷◌, ◌++◌, false}
use card_payment_service.Domain.{error_text}
use card_payment_service.Effect.{M, pure, catch, ◌>>=◌}
use card_payment_service.Http.{Response, Payload, succeed, bad_request}
use card_payment_service.Webhook.{Tool, Desk}
use card_payment_service.Webhook.Events.{available_events}
use card_payment_service.Webhook.Simulator.{Simulator, SimulateResult, send}

-- an item of the body of /simulate/batch
pub record BatchItem : Type 0 where
  pub event : String
  pub gateway_ref : String

-- the result for an item that `Send` gives an error for
abbrev pub refused : BatchItem → String → SimulateResult
refused item text = record {
  event = item.event;
  gateway_ref = item.gateway_ref;
  status_code = 0;
  success = false;
  error = text;
}

pub data Request : Type 0 where
  events : Request
  -- the body, as `ShouldBindJSON` reads it
  batch : Option (List BatchItem) → Request
  health : Request

module _ (t : Tool) (s : Simulator) where
  -- the loop over the items, with the results so far
  unfoldable pub send_all : List BatchItem → List SimulateResult → M (Desk t) (List SimulateResult)
  send_all [] results = pure results
  send_all (item ∷ items) results =
      catch (send t s item.event item.gateway_ref)
        (λ e. send_all items (results ++ refused item (error_text e) ∷ []))
        (λ result. send_all items (results ++ result ∷ []))

  unfoldable pub answer : Request → M (Desk t) Response
  answer Request.events = pure (succeed 200 (Payload.events available_events))
  answer (Request.batch none) = pure bad_request
  answer (Request.batch (some items)) = do
    results ← send_all items []
    pure (succeed 200 (Payload.results results))
  answer Request.health = pure (succeed 200 (Payload.health "ok" s.target_url))
