-- ===== src/Gateway/Mock.antt =====
-- internal/gateway/mock_gateway.go. The card library, the environment and `uuid` are parameters.
pub mod Accepts
pub mod Calm
use Prim.Native.String
use card_payment_service.Prelude.{
  String, Option, none, some, Bool, ◌||◌, not, inl, inr, ◌==◌, leb, str_eq, if◌then◌else◌,
}
use card_payment_service.Domain.{
  Error, is_nonpositive, equals, body_invalid, invalid_gateway_ref, card_amount_invalid,
  card_infor_invalid, card_declined, insufficient_funds, expired_card, card_capture_failed,
  deadline_exceeded,
}
use card_payment_service.Effect.{M, ok, pure, raise, raise_if, ◌>>=◌, ◌>>◌}
use card_payment_service.External.Table.{Reply}
use card_payment_service.Gateway.{
  Gateway, AuthorizeRequest, AuthorizeResponse, CaptureRequest, CaptureResponse, VoidRequest,
  VoidResponse, RefundRequest, RefundResponse, TokenizeRequest, TokenizeResponse,
}
use card_payment_service.Gateway.TestCards.{CardScenario, get_test_card_scenario}

-- `creditcard.Card`, `Card.Validate`, `Card.LastFour`; `os.Getenv`; `uuid.NewString`
pub record Card : Type 0 where
  pub number : String
  pub cvv : String
  pub month : String
  pub year : String

pub record MockParts (O : Type 0) : Type 0 where
  pub validate : Card → Option Error
  pub last_four : String → Reply String
  pub getenv : String → String
  pub new_string : O → String × O

-- `strings.Contains`: the place of the first occurrence is past the end where there is none.
abbrev pub contains : String → String → Bool
contains s t = leb (String.find s t) (String.len s)

module _ {O : Type 0} (m : MockParts O) where
  unfoldable pub new_string : M O String
  new_string o = (ok (m.new_string o).0, (m.new_string o).1)

  unfoldable pub lift : {A : Type 0} → Reply A → M O A
  lift (inl a) = pure a
  lift (inr e) = raise e

  unfoldable pub authorize : AuthorizeRequest → M O (Option AuthorizeResponse)
  authorize req = do
    raise_if (is_nonpositive req.amount) card_amount_invalid
    raise_if
        (str_eq req.order_id "" || str_eq req.currency "" || not (String.len req.currency == 3))
        card_infor_invalid
    raise_if (equals req.amount 99999) card_declined
    raise_if (equals req.amount 9999) insufficient_funds
    pure (some (record { gateway_ref = "gw_mock_001"; status = "authorized" }))

  unfoldable pub capture : CaptureRequest → M O (Option CaptureResponse)
  capture req = do
    raise_if (str_eq req.gateway_ref "") invalid_gateway_ref
    raise_if (str_eq req.order_id "") body_invalid
    raise_if (contains req.gateway_ref "FAIL") card_capture_failed
    raise_if (contains req.gateway_ref "TIMEOUT") deadline_exceeded
    pure (some (record { status = "captured"; gateway_ref = req.gateway_ref }))

  unfoldable pub void : VoidRequest → M O (Option VoidResponse)
  void req = do
    raise_if (str_eq req.gateway_ref "") invalid_gateway_ref
    raise_if (str_eq req.order_id "") body_invalid
    raise_if (contains req.gateway_ref "VOID_FAIL") card_capture_failed
    raise_if (contains req.gateway_ref "VOID_TIMEOUT") deadline_exceeded
    pure (some (record { status = "voided"; gateway_ref = req.gateway_ref }))

  unfoldable pub refund : RefundRequest → M O (Option RefundResponse)
  refund req = do
    raise_if (str_eq req.gateway_ref "") invalid_gateway_ref
    raise_if (is_nonpositive req.amount) card_amount_invalid
    raise_if (contains req.gateway_ref "REFUND_FAIL") card_capture_failed
    raise_if (contains req.gateway_ref "REFUND_TIMEOUT") deadline_exceeded
    id ← new_string
    pure (some (record { refund_ref = String.◌++◌ "rf_" id; status = "processing" }))

  -- `buildSuccessResponse`
  unfoldable pub build_success_response : String → M O (Option TokenizeResponse)
  build_success_response card_number = do
    last_four ← lift (m.last_four card_number)
    id ← new_string
    pure (
        some (record { card_token = String.◌++◌ "tok_" id; last_four = last_four; brand = "VISA" }))

  unfoldable pub validated : Option Error → String → M O (Option TokenizeResponse)
  validated none number = build_success_response number
  validated (some e) number = raise e

  -- the `switch` over the scenario of a test card, and what follows where there is none
  unfoldable pub tokenize_scenario :
      TokenizeRequest → Option CardScenario → M O (Option TokenizeResponse)
  tokenize_scenario req (some CardScenario.declined) = raise card_declined
  tokenize_scenario req (some CardScenario.insufficient_funds) = raise insufficient_funds
  tokenize_scenario req (some CardScenario.expired) = raise expired_card
  tokenize_scenario req (some CardScenario.success) = build_success_response req.card_number
  tokenize_scenario req none =
      validated
        (m.validate (record {
          number = req.card_number;
          cvv = req.cvv;
          month = req.expiry_month;
          year = req.expiry_year;
        }))
        req.card_number

  unfoldable pub tokenize_card : TokenizeRequest → M O (Option TokenizeResponse)
  tokenize_card req = tokenize_scenario req (
      if str_eq (m.getenv "APP_ENV") "develop"
      then get_test_card_scenario req.card_number
      else none)

  -- `NewMockGateway`
  abbrev pub mock_gateway : Gateway O
  mock_gateway = record {
    authorize = authorize;
    capture = capture;
    refund = refund;
    void = void;
    tokenize_card = tokenize_card;
  }
