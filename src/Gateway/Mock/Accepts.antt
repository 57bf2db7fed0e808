-- ===== src/Gateway/Mock/Accepts.antt =====
-- What the mock gateway holds, it captures, voids and refunds.
use card_payment_service.Prelude.{String, ◌≡◌, refl, subst, Option, none, some, false, str_eq}
use Prim.Native.String
use card_payment_service.Domain.{is_nonpositive}
use card_payment_service.Effect.{ok, effects, pure}
use card_payment_service.Effect.Triple.{Ends, Triple, Triple-pure, Triple-raise_if, Triple-bind}
use card_payment_service.Gateway.{
  AuthorizeRequest, AuthorizeResponse, RefundRequest, RefundResponse,
}
use card_payment_service.Gateway.Mock.{MockParts, new_string}
use card_payment_service.Gateway.Mock

module _ {O : Type 0} (m : MockParts O) where
  -- A hold has the mock's one reference, and its amount is positive.
  abbrev IsHold : AuthorizeRequest → Option AuthorizeResponse → O → Type 0
  IsHold req none o = ⊥
  IsHold req (some r) o = (r.gateway_ref ≡ "gw_mock_001") × (is_nonpositive req.amount ≡ false)

  authorize-IsHold :
      (req : AuthorizeRequest)
      → Triple
          (λ (_ : O). Unit {0})
          (Mock.authorize m req)
          (IsHold req)
          (λ _ _. Unit)
          (λ _. Unit)
          (λ _. Unit)
  unfolding Mock.authorize
  authorize-IsHold req = Triple-bind (Triple-raise_if _ _ (λ _ o u. tt)) λ _.
      Triple-bind (Triple-raise_if _ _ (λ _ o u. tt)) λ _.
        Triple-bind (Triple-raise_if _ _ (λ _ o u. tt)) λ _.
          Triple-bind (Triple-raise_if _ _ (λ _ o u. tt))
            λ _. Triple-pure _ (λ o h. (refl, h.0.0.0.1))

  capture_mock :
      (order_id : String) (o : O)
      → str_eq order_id "" ≡ false
      → (Mock.capture m (record { gateway_ref = "gw_mock_001"; order_id = order_id }) o).0
        ≡ ok (some (record { status = "captured"; gateway_ref = "gw_mock_001" }))
  unfolding Mock.capture effects pure
  capture_mock order_id o e = rw e refl

  void_mock :
      (order_id : String) (o : O)
      → str_eq order_id "" ≡ false
      → (Mock.void m (record { order_id = order_id; gateway_ref = "gw_mock_001" }) o).0
        ≡ ok (some (record { status = "voided"; gateway_ref = "gw_mock_001" }))
  unfolding Mock.void effects pure
  void_mock order_id o e = rw e refl

  -- The refund of an amount is accepted.
  abbrev pub IsRefundable : RefundRequest → O → Type 0
  IsRefundable req o = (t : RefundResponse) × ((Mock.refund m req o).0 ≡ ok (some t))

  refund_mock :
      (req : AuthorizeRequest) (o : O)
      → is_nonpositive req.amount ≡ false
      → IsRefundable (record { gateway_ref = "gw_mock_001"; amount = req.amount }) o
  unfolding Mock.refund effects pure new_string
  refund_mock req o e = (
    record { refund_ref = String.◌++◌ "rf_" (m.new_string o).0; status = "processing" },
    rw e refl,
  )

  -- A request about a hold is accepted: to capture and to void it, and to refund its amount.
  abbrev pub IsAccepted : AuthorizeRequest → String → String → O → Type 0
  IsAccepted req ref order_id o =
      ((Mock.capture m (record { gateway_ref = ref; order_id = order_id }) o).0
        ≡ ok (some (record { status = "captured"; gateway_ref = ref })))
      × ((Mock.void m (record { order_id = order_id; gateway_ref = ref }) o).0
          ≡ ok (some (record { status = "voided"; gateway_ref = ref })))
      × IsRefundable (record { gateway_ref = ref; amount = req.amount }) o

  -- Where the mock gateway has granted a hold, it accepts, in any state, to capture and to void
  -- that hold's reference for any order that is not empty, and to refund the hold's amount on it.
  pub authorize-IsAccepted :
      (req : AuthorizeRequest) (o : O) (r : AuthorizeResponse)
      → (Mock.authorize m req o).0 ≡ ok (some r)
      → (order_id : String) → str_eq order_id "" ≡ false
      → (later : O) → IsAccepted req r.gateway_ref order_id later
  authorize-IsAccepted req o r e order_id named later =
      let held =
        subst
          (λ a.
            Ends (IsHold req) (λ _ _. Unit) (λ _. Unit) (λ _. Unit) a (Mock.authorize m req o).1)
          e ((authorize-IsHold req).at o tt) in
      rw held.0 (
        capture_mock order_id later named,
        void_mock order_id later named,
        refund_mock req later held.1,
      )
