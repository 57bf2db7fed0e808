-- ===== src/Http/Routes/Hold.antt =====
-- The route for authorize, from the request to the row.
use card_payment_service.Prelude.{◌≡◌, ◌⊎◌, refl, subst, ap, some, false, inl, inr}
use card_payment_service.Domain.{Merchant}
use card_payment_service.Effect.Triple.{Ends, Triple, Triple-pure, Triple-catch, Triple-after}
use card_payment_service.External.Table.{TableLaws}
use card_payment_service.Gateway.{Gateway}
use card_payment_service.World.{Externals, World}
use card_payment_service.Repository.{
  merchant_columns, api_key_columns, transaction_columns, idempotency_key_columns,
}
use card_payment_service.Auth.Keys.{IsOwner, SameRows}
use card_payment_service.Payment.Types.{ChargeInput, ChargeOutput}
use card_payment_service.Payment.Service.{authorize}
use card_payment_service.Payment.Guards.{ledger, IsQuiet, Never}
use card_payment_service.Payment.Authorize.Requests.{
  AuthorizeAnswer, AuthorizeRefusal, AuthorizeFailure, authorize_settles,
}
use card_payment_service.Http.{
  Response, Payload, Context, AuthorizePaymentRequest, succeed, from_error,
}
use card_payment_service.Http.Handlers.{handle_authorize, respond}
use card_payment_service.Http.Routes.{Route, serve}
use card_payment_service.Http.Routes.Bound.{input_of, IsBound, Serves, serve-triple}

module _ (x : Externals) (l : TableLaws x.transactions transaction_columns)
    (li : TableLaws x.idempotency_keys idempotency_key_columns)
    (lm : TableLaws x.merchants merchant_columns) (lk : TableLaws x.api_keys api_key_columns)
    (g : Gateway x.Outside) (c : Context) (w : World x) where
  -- Nothing was sent or changed; or the service refused the hold, or failed.
  abbrev pub IsDeclined : World x → Type 0
  IsDeclined v =
      IsQuiet x l (ledger w) (ledger v)
      ⊎ IsBound x lm lk c w (λ input.
        ((out : ChargeOutput) × AuthorizeRefusal x l li g input w out v)
        ⊎ AuthorizeFailure x l li g input w v)

  -- 201 with the output of the service; or no success.
  abbrev pub IsServed : Response → World x → Type 0
  IsServed resp v =
      IsBound x lm lk c w (λ input.
        (out : ChargeOutput) × (resp ≡ succeed 201 (Payload.payment out.transaction_id out.status))
        × AuthorizeAnswer x l li g input w out v)
      ⊎ ((resp.success ≡ false) × IsDeclined v)

  abbrev Start : World x → Type 0
  Start = SameRows x lm lk w

  quiet : (v : World x) → Start v → IsQuiet x l (ledger w) (ledger v)
  quiet v s = record {
    row = λ k. ap (λ (u : World x). l.at u.transactions k) s.rest;
    calls = ap (λ (u : World x). u.calls) s.rest;
    refunds = ap (λ (u : World x). u.refunds) s.rest;
  }

  -- The service's theorem, from the state that the authentication leaves.
  authorize-triple :
      (input : ChargeInput)
      → Triple Start
          (authorize x g input)
          (AuthorizeAnswer x l li g input w)
          (AuthorizeRefusal x l li g input w)
          (AuthorizeFailure x l li g input w)
          (AuthorizeFailure x l li g input w)
  authorize-triple input = record {
    at = λ u s.
        subst
          (λ (t : World x).
            Ends (AuthorizeAnswer x l li g input t) (AuthorizeRefusal x l li g input t)
              (AuthorizeFailure x l li g input t) (AuthorizeFailure x l li g input t)
              (authorize x g input u).0 (authorize x g input u).1)
          s.rest (authorize_settles x l li g input u);
  }

  respond-triple :
      (m : Merchant) (req : AuthorizePaymentRequest)
      → IsOwner x lm lk w c.api_key m
      → c.body ≡ some req
      → Serves x lm lk c w g IsServed IsDeclined (
          respond x g
            (authorize x g (input_of c m req))
            (λ out. succeed 201 (Payload.payment out.transaction_id out.status)))
  unfolding respond from_error
  respond-triple m req owner body =
      Triple-catch
        (Triple-after (authorize-triple (input_of c m req)) (λ out v h. h)
          (λ out v h. inr (m, req, owner, body, inl (out, h)))
          (λ v h. inr (m, req, owner, body, inr h)) (λ v h. inr (m, req, owner, body, inr h)))
        (λ e. Triple-pure _ (λ v h. inr (refl, h)))
        (λ out. Triple-pure _ (λ v h. inl (m, req, owner, body, (out, refl, h))))

  serve_authorize-triple : Serves x lm lk c w g IsServed IsDeclined (serve x g Route.authorize c)
  unfolding serve handle_authorize
  serve_authorize-triple =
      serve-triple x lm lk c w g IsServed IsDeclined (authorize x g)
        (λ out. succeed 201 (Payload.payment out.transaction_id out.status))
        (λ resp v e s. inr (e, inl (quiet v s))) respond-triple

-- What the route for authorize answers, whatever the gateway and the database answer. A success is
-- 201 with the output of `Authorize` on the bound body, the header's idempotency key and the active
-- merchant that owns the API key; and as that operation ends with an output, it was stored for that
-- key, or the hold was granted and its transaction added. Any other response is no success; then,
-- and where the request panics or fails, nothing was sent or changed, or that operation on such an
-- input has refused the hold or has failed.
pub serve_authorize :
    (x : Externals) (l : TableLaws x.transactions transaction_columns)
    (li : TableLaws x.idempotency_keys idempotency_key_columns)
    (lm : TableLaws x.merchants merchant_columns) (lk : TableLaws x.api_keys api_key_columns)
    (g : Gateway x.Outside) (c : Context) (w : World x)
    → let (r, v) = serve x g Route.authorize c w in
      Ends
        (IsServed x l li lm lk g c w)
        (λ _. Never)
        (IsDeclined x l li lm lk g c w)
        (IsDeclined x l li lm lk g c w)
        r
        v
serve_authorize x l li lm lk g c w =
    (serve_authorize-triple x l li lm lk g c w).at w
      (record { merchants = λ k. refl; api_keys = λ k. refl; rest = refl })
