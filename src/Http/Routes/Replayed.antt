-- ===== src/Http/Routes/Replayed.antt =====
-- The route for charge, from the request to the response.
use card_payment_service.Prelude.{◌≡◌, ◌⊎◌, refl, subst, ap, some, false, inl, inr}
use card_payment_service.Effect.Triple.{Ends, Triple, Triple-pure, Triple-catch, Triple-after}
use card_payment_service.External.Table.{TableLaws}
use card_payment_service.Domain.{Merchant}
use card_payment_service.Gateway.{Gateway}
use card_payment_service.World.{Externals, World}
use card_payment_service.Repository.{
  merchant_columns, api_key_columns, transaction_columns, idempotency_key_columns,
}
use card_payment_service.Auth.Keys.{IsOwner, SameRows}
use card_payment_service.Payment.Types.{ChargeInput, ChargeOutput}
use card_payment_service.Payment.Service.{charge}
use card_payment_service.Payment.Charge.{IsStored, OnlyCard, charge_only_replays}
use card_payment_service.Payment.Guards.{Never}
use card_payment_service.Http.{
  Response, Payload, Context, AuthorizePaymentRequest, succeed, from_error,
}
use card_payment_service.Http.Handlers.{handle_charge, respond}
use card_payment_service.Http.Routes.{Route, serve}
use card_payment_service.Http.Routes.Bound.{input_of, IsBound, Serves, serve-triple}

module _ (x : Externals) (l : TableLaws x.transactions transaction_columns)
    (li : TableLaws x.idempotency_keys idempotency_key_columns)
    (lm : TableLaws x.merchants merchant_columns) (lk : TableLaws x.api_keys api_key_columns)
    (g : Gateway x.Outside) (c : Context) (w : World x) where
  -- The gateway was sent nothing; or the request was bound, and only the card was sent.
  abbrev pub IsUncharged : World x → Type 0
  IsUncharged v = (v.calls ≡ w.calls) ⊎ IsBound x lm lk c w (λ input. OnlyCard x l li g input w v)

  -- 200 with the response that was stored for the request; or no success.
  abbrev pub IsReplied : Response → World x → Type 0
  IsReplied resp v =
      IsBound x lm lk c w (λ input.
        (out : ChargeOutput) × (resp ≡ succeed 200 (Payload.payment out.transaction_id out.status))
        × IsStored x l li g input w out v)
      ⊎ ((resp.success ≡ false) × IsUncharged v)

  -- The service's theorem, from the state that the authentication leaves.
  charge-triple :
      (input : ChargeInput)
      → Triple
          (SameRows x lm lk w)
          (charge x g input)
          (IsStored x l li g input w)
          (λ _. Never)
          (OnlyCard x l li g input w)
          (OnlyCard x l li g input w)
  charge-triple input = record {
    at = λ u s.
        subst
          (λ (t : World x).
            Ends (IsStored x l li g input t) (λ _. Never) (OnlyCard x l li g input t)
              (OnlyCard x l li g input t) (charge x g input u).0 (charge x g input u).1)
          s.rest (charge_only_replays x l li g input u);
  }

  respond-triple :
      (m : Merchant) (req : AuthorizePaymentRequest)
      → IsOwner x lm lk w c.api_key m
      → c.body ≡ some req
      → Serves x lm lk c w g IsReplied IsUncharged (
          respond x g
            (charge x g (input_of c m req))
            (λ out. succeed 200 (Payload.payment out.transaction_id out.status)))
  unfolding respond from_error
  respond-triple m req owner body =
      Triple-catch
        (Triple-after (charge-triple (input_of c m req)) (λ out v h. h) (λ out v h. absurd h)
          (λ v h. inr (m, req, owner, body, h)) (λ v h. inr (m, req, owner, body, h)))
        (λ e. Triple-pure _ (λ v h. inr (refl, h)))
        (λ out. Triple-pure _ (λ v h. inl (m, req, owner, body, (out, refl, h))))

  serve-charge-triple : Serves x lm lk c w g IsReplied IsUncharged (serve x g Route.charge c)
  unfolding serve handle_charge
  serve-charge-triple =
      serve-triple x lm lk c w g IsReplied IsUncharged (charge x g)
        (λ out. succeed 200 (Payload.payment out.transaction_id out.status))
        (λ resp v e s. inr (e, inl (ap (λ (u : World x). u.calls) s.rest))) respond-triple

-- What the route for charge answers, whatever the gateway and the database answer. A success is 200
-- with the response that was stored for the merchant's live row of the header's idempotency key, on
-- a bound body and an active merchant that owns the API key, and the gateway was sent nothing. Any
-- other response is no success; then, and where the request panics or fails, the gateway was sent
-- nothing, or on a bound body the card alone: no request is ever charged.
pub serve-charge :
    (x : Externals) (l : TableLaws x.transactions transaction_columns)
    (li : TableLaws x.idempotency_keys idempotency_key_columns)
    (lm : TableLaws x.merchants merchant_columns) (lk : TableLaws x.api_keys api_key_columns)
    (g : Gateway x.Outside) (c : Context) (w : World x)
    → let (r, v) = serve x g Route.charge c w in
      Ends
        (IsReplied x l li lm lk g c w)
        (λ _. Never)
        (IsUncharged x l li lm lk g c w)
        (IsUncharged x l li lm lk g c w)
        r
        v
serve-charge x l li lm lk g c w =
    (serve-charge-triple x l li lm lk g c w).at w
      (record { merchants = λ k. refl; api_keys = λ k. refl; rest = refl })
