-- ===== src/Webhook/Simulator.antt =====
-- tools/webhook-simulator/simulator.go: one event, built, signed and posted.
pub mod Sent
pub mod Decimal
use Prim.Native.String
use card_payment_service.Prelude.{
  ℕ, zero, suc, ◌+◌, ◌/◌, ◌%◌, String, Bool, true, false, ◌&&◌, Option, none, some, List, [], ◌∷◌,
  str_eq, if◌then◌else◌, ltb, leb, inl, inr,
}
use card_payment_service.Domain.{Error, message, error_text}
use card_payment_service.Effect.{M, pure, raise, catch, ◌>>=◌}
use card_payment_service.External.Table.{Reply}
use card_payment_service.Crypto.{hex_digit, hex_encode}
use card_payment_service.World.{result_of}
use card_payment_service.Webhook.{HttpRequest, Tool, Desk, post}
use card_payment_service.Webhook.Events.{EventType, payload_fields, build_payload}

-- The client's timeout is part of `do_request`.
pub record Simulator : Type 0 where
  pub target_url : String
  pub secret : String

pub record SimulateResult : Type 0 where
  pub event : String
  pub gateway_ref : String
  pub status_code : ℕ
  pub success : Bool
  pub error : String

-- `Header.Set`: the value replaces what the key had.
unfoldable pub set_header : String → String → List (String × String) → List (String × String)
set_header key value [] = (key, value) ∷ []
set_header key value ((k, v) ∷ headers) =
    let rest = set_header key value headers in
    if str_eq k key then (k, value) ∷ headers else (k, v) ∷ rest

-- `%d` of a number below the fuel; a digit is dropped in each round
unfoldable pub decimal_rounds : ℕ → ℕ → String
decimal_rounds zero n = ""
decimal_rounds (suc fuel) n =
    let rest = decimal_rounds fuel (n / 10) in
    if ltb n 10 then hex_digit n else String.◌++◌ rest (hex_digit (n % 10))

unfoldable pub decimal : ℕ → String
decimal n = decimal_rounds (n + 1) n

-- `resp.StatusCode >= 200 && resp.StatusCode < 300`
abbrev pub is_success : ℕ → Bool
is_success code = leb 200 code && ltb code 300

-- the result before the request is made
abbrev pub unanswered : EventType → String → SimulateResult
unanswered event gateway_ref = record {
  event = event;
  gateway_ref = gateway_ref;
  status_code = 0;
  success = false;
  error = "";
}

-- the result of an answer
unfoldable pub answered : EventType → String → ℕ → SimulateResult
answered event gateway_ref code = record (unanswered event gateway_ref) {
  status_code = code;
  success = is_success code;
  error = if is_success code then "" else String.◌++◌ "payment service returned " (decimal code);
}

module _ (t : Tool) (s : Simulator) where
  unfoldable pub sign : List ℕ → String
  sign body = hex_encode (t.hmac_sha256 s.secret body)

  -- `http.NewRequest`, and its error with a text before it
  abbrev pub new_request : List ℕ → Option Error → Reply HttpRequest
  new_request body none =
      inl (record { method = "POST"; url = s.target_url; headers = []; body = body })
  new_request body (some e) = inr (message (String.◌++◌ "failed to build request: " (error_text e)))

  unfoldable pub build_http_request : List ℕ → M (Desk t) HttpRequest
  build_http_request body w = (result_of (new_request body (t.url_error s.target_url)), w)

  unfoldable pub marshalled : Reply (List ℕ) → M (Desk t) (List ℕ)
  marshalled (inl body) = pure body
  marshalled (inr e) = raise (message (String.◌++◌ "failed to marshal payload: " (error_text e)))

  -- the request with both headers set
  unfoldable pub with_headers : String → HttpRequest → HttpRequest
  with_headers signature r = record r {
    headers =
        set_header "X-Signature" signature (set_header "Content-Type" "application/json" r.headers);
  }

  unfoldable pub send : EventType → String → M (Desk t) SimulateResult
  send event gateway_ref = do
    payload ← build_payload t event gateway_ref
    body ← marshalled (t.marshal (payload_fields payload))
    req ← build_http_request body
    catch (post (with_headers (sign body) req))
        (λ e. pure (record (unanswered event gateway_ref) { error = error_text e }))
        (λ code. pure (answered event gateway_ref code))
