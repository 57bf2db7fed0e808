-- ===== src/Tests/Webhooks.antt =====
-- Runs of the webhook simulator, and its theorems at concrete inputs.
use Prim.Native.String
use card_payment_service.Prelude.{
  ℕ, String, ◌≡◌, refl, none, some, List, [], ◌∷◌, map, inl, inr, str_eq, if◌then◌else◌, length,
}
use card_payment_service.Domain.{pos, message}
use card_payment_service.Effect
use card_payment_service.Effect.{ok}
use card_payment_service.Effect.Triple.{Ends}
use card_payment_service.Payment.Guards.{Never}
use card_payment_service.Crypto
use card_payment_service.Domain
use card_payment_service.Http.{Payload, succeed}
use card_payment_service.Webhook
use card_payment_service.Webhook.{Tool, Desk}
use card_payment_service.Webhook.Events
use card_payment_service.Webhook.Events.{build_payload}
use card_payment_service.Webhook.Events.Built.{IsBuilt, IsUnlisted, build_payload_lem}
use card_payment_service.Webhook.Simulator
use card_payment_service.Webhook.Simulator.{Simulator, SimulateResult, send, decimal}
use card_payment_service.Webhook.Simulator.Sent.{IsDelivered, IsUndelivered, send_settles}
use card_payment_service.Webhook.Routes
use card_payment_service.Webhook.Routes.{BatchItem, Request, answer}
use card_payment_service.Webhook.Routes.Batch.{named, name_of, Reports, batch_answers}

unfoldable webhook_run : Unit {0}
unfolding Effect.effects Effect.pure Effect.raise Effect.catch Crypto.hex_encode Domain.error_text
    Webhook.take Webhook.post Events.payload_fields Events.refund_payload Events.fill_payload
    Events.build_payload Simulator.set_header Simulator.decimal_rounds Simulator.decimal
    Simulator.answered Simulator.sign Simulator.build_http_request Simulator.marshalled
    Simulator.with_headers Simulator.send Routes.send_all Routes.answer
webhook_run = tt

-- the codes that a payment service will answer, and then no connection
abbrev demo_tool : Tool
demo_tool = record {
  Outside = List ℕ;
  now = λ o. (5, o);
  new_string = λ o. ("1", o);
  marshal = λ fields. inl (length fields ∷ []);
  hmac_sha256 = λ secret body. String.len secret ∷ body;
  url_error = λ url. if str_eq url "" then some (message "no URL") else none;
  do_request = λ r codes. elim codes [
    | [] ↦ (inr (message "connection refused"), [])
    | code ∷ rest ↦ (inl code, rest)
  ];
}

abbrev demo_simulator : Simulator
demo_simulator = record { target_url = "http://localhost:8080/hook"; secret = "abc" }

abbrev demo_desk : Desk demo_tool
demo_desk = record { outside = 200 ∷ 503 ∷ []; posts = [] }

abbrev item : String → BatchItem
item name = record { event = name; gateway_ref = "gw_1" }

abbrev demo_items : List BatchItem
demo_items =
    item "payment.success" ∷ item "payment.lost" ∷ item "refund.failed" ∷ item "payment.failed" ∷ []

abbrev result : String → ℕ → String → SimulateResult
result name code error = record {
  event = name;
  gateway_ref = "gw_1";
  status_code = code;
  success = str_eq error "";
  error = error;
}

-- One result for each item, and three requests: the unknown event was not posted.
batch_of_four :
    let (r, v) = answer demo_tool demo_simulator (Request.batch (some demo_items)) demo_desk in
    (r
      ≡ ok (
          succeed 200 (
            Payload.results (
              result "payment.success" 200 ""
              ∷ result "payment.lost" 0 "unknown event type: payment.lost"
              ∷ result "refund.failed" 503 "payment service returned 503"
              ∷ result "payment.failed" 0 "connection refused"
              ∷ []))))
    × (length v.posts ≡ 3)
unfolding webhook_run
batch_of_four = (refl, refl)

-- the body has six fields, and the secret three characters
signed_success :
    (send demo_tool demo_simulator "payment.success" "gw_1" demo_desk).1.posts
    ≡ record {
      method = "POST";
      url = "http://localhost:8080/hook";
      headers = ("Content-Type", "application/json") ∷ ("X-Signature", "0306") ∷ [];
      body = 6 ∷ [];
    }
      ∷ []
unfolding webhook_run
signed_success = refl

build_payload_lem_example :
    let (r, v) = build_payload demo_tool "payment.success" "gw_1" demo_desk in
    Ends
      (IsBuilt demo_tool "payment.success" "gw_1" demo_desk)
      (λ _. Never)
      (IsUnlisted demo_tool "payment.success" "gw_1" demo_desk)
      Never
      r
      v
build_payload_lem_example = build_payload_lem demo_tool "payment.success" "gw_1" demo_desk

send_settles_example :
    let (r, v) = send demo_tool demo_simulator "refund.completed" "gw_1" demo_desk in
    Ends
      (IsDelivered demo_tool demo_simulator "refund.completed" "gw_1" demo_desk)
      (λ _. Never)
      (IsUndelivered demo_tool demo_simulator "refund.completed" "gw_1" demo_desk)
      Never
      r
      v
send_settles_example = send_settles demo_tool demo_simulator "refund.completed" "gw_1" demo_desk

batch_answers_example :
    let (r, v) = answer demo_tool demo_simulator (Request.batch (some demo_items)) demo_desk in
    (results : List SimulateResult) × (r ≡ ok (succeed 200 (Payload.results results)))
    × (map name_of results ≡ map named demo_items)
    × Reports demo_tool demo_simulator demo_items results demo_desk v
batch_answers_example = batch_answers demo_tool demo_simulator demo_items demo_desk
