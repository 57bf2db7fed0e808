-- ===== src/Http/Routes/Guarded.antt =====
-- The routes as they are registered: what they run, and requests without a key.
use card_payment_service.Prelude.{
  ◌≡◌, ◌⊎◌, refl, sym, subst, ap, ◌∙◌, List, [], ◌∷◌, ◌++◌, Bool, true, false, inl, inr, All,
  All-map,
}
use card_payment_service.Domain.{error_text, missing_api_key}
use card_payment_service.Effect.{M, Result, ok, err, both, panic, pure}
use card_payment_service.Effect.Triple.{Ends, Triple}
use card_payment_service.External.Table.{TableLaws}
use card_payment_service.Repository.{merchant_columns, api_key_columns}
use card_payment_service.Payment.Guards.{Never}
use card_payment_service.Http.Routes.Meta.{
  IsRefusal, Refuses, unauthorized_lem, merchant_auth-Refuses,
}
use card_payment_service.Gateway.{Gateway}
use card_payment_service.World.{Externals, World}
use card_payment_service.Http.{Response, Context, unauthorized}
use card_payment_service.Http.Handlers.{handle_register, handle_activate}
use card_payment_service.Http.Routes.{Route, serve, merchant_auth, require_idempotency_key}
use card_payment_service.Http.Routes.Table.{
  Middleware, Endpoint, Router, RouterLaws, RegisteredRoute, Request, register_routes,
  register_merchant, register_payment, initialize_router, recovering, calm_or, aborted, run_chain,
  run_middleware, run_endpoint, serve_registered,
}

module _ (r : Router) (laws : RouterLaws r) where
  abbrev v1 : r.RouterGroup
  v1 = r.group (initialize_router r) "/v1"

  abbrev payment : r.RouterGroup
  payment = r.use_middleware (r.group v1 "/payments") Middleware.authenticated

  abbrev with_idem_key : r.RouterGroup
  with_idem_key = r.use_middleware (r.group payment "") Middleware.keyed

  -- the middleware of the engine
  abbrev outer : List Middleware
  outer = Middleware.logged ∷ Middleware.recovered ∷ Middleware.logged ∷ Middleware.recovered ∷ []

  v1-middlewares : laws.middlewares v1 ≡ outer
  unfolding initialize_router
  v1-middlewares =
      laws.group_lem _ "/v1"
      ∙ laws.use_middleware_lem _ _
      ∙ ap (λ ms. ms ++ Middleware.recovered ∷ [])
          (laws.use_middleware_lem _ _
            ∙ ap (λ ms. ms ++ Middleware.logged ∷ []) laws.default_engine_lem)

  merchant-middlewares : laws.middlewares (r.group v1 "/merchants") ≡ outer
  merchant-middlewares = laws.group_lem v1 "/merchants" ∙ v1-middlewares

  payment-middlewares : laws.middlewares payment ≡ outer ++ Middleware.authenticated ∷ []
  payment-middlewares =
      laws.use_middleware_lem _ _
      ∙ ap (λ ms. ms ++ Middleware.authenticated ∷ [])
          (laws.group_lem v1 "/payments" ∙ v1-middlewares)

  with_idem_key-middlewares :
      laws.middlewares with_idem_key ≡ outer ++ Middleware.authenticated ∷ Middleware.keyed ∷ []
  with_idem_key-middlewares =
      laws.use_middleware_lem _ _
      ∙ ap (λ ms. ms ++ Middleware.keyed ∷ []) (laws.group_lem payment "" ∙ payment-middlewares)

  module _ (x : Externals) (g : Gateway x.Outside) where
    -- What a route runs under the engine's recovery, which is there twice.
    abbrev handled : Endpoint → Request → M (World x) Response
    handled Endpoint.register req = handle_register x req.registration
    handled Endpoint.activate req = handle_activate x req.email
    handled (Endpoint.payment route) req = serve x g route req.context

    abbrev reference : Endpoint → Request → M (World x) Response
    reference e req = recovering (recovering (handled e req))

    chain_eq :
        (ms : List Middleware) (e : RegisteredRoute r) (req : Request)
        → laws.middlewares e.rg ≡ ms
        → serve_registered x g r laws e req
          ≡ run_chain x g ms (run_endpoint x g e.endpoint req) req.context
    unfolding serve_registered
    chain_eq ms e req h =
        ap (λ ms. run_chain x g ms (run_endpoint x g e.endpoint req) req.context) h

-- Every registered route runs as `serve` has it, under the recovery.
serve_registered-serve :
    (r : Router) (laws : RouterLaws r) (x : Externals) (g : Gateway x.Outside) (req : Request)
    → All
        (λ e. serve_registered x g r laws e req ≡ reference r laws x g e.endpoint req)
        (register_routes r (initialize_router r))
unfolding register_routes register_merchant register_payment run_chain run_middleware run_endpoint
    serve
serve_registered-serve r laws x g req =
    let one = outer r laws ++ Middleware.authenticated ∷ [] in
    let both = outer r laws ++ Middleware.authenticated ∷ Middleware.keyed ∷ [] in
    (
      chain_eq r laws x g (outer r laws) _ req (merchant-middlewares r laws),
      (
        chain_eq r laws x g (outer r laws) _ req (merchant-middlewares r laws),
        (
          chain_eq r laws x g both _ req (with_idem_key-middlewares r laws),
          (
            chain_eq r laws x g both _ req (with_idem_key-middlewares r laws),
            (
              chain_eq r laws x g both _ req (with_idem_key-middlewares r laws),
              (
                chain_eq r laws x g one _ req (payment-middlewares r laws),
                (chain_eq r laws x g one _ req (payment-middlewares r laws), tt),
              ),
            ),
          ),
        ),
      ),
    )

recovering_ok :
    {W : Type 0} (m : M W Response) (w : W) (r : Response)
    → m w ≡ (ok r, w)
    → recovering m w ≡ (ok r, w)
unfolding recovering
recovering_ok m w r h = ap (λ p. (calm_or aborted p.0, p.1)) h

calm_or-Ends :
    {W : Type 0} (Q : Response → W → Type 0) (r : Result Response) (v : W)
    → Ends Q (λ _. Never) Never Never r v
    → Ends Q (λ _. Never) Never Never (calm_or aborted r) v
calm_or-Ends Q (ok a) v h = h
calm_or-Ends Q (err e) v h = h
calm_or-Ends Q (both a e) v h = h
calm_or-Ends Q (panic p) v h = absurd h

-- The recovery leaves alone what does not panic.
Triple-recovering :
    {W : Type 0} {P : W → Type 0} {Q : Response → W → Type 0} {m : M W Response}
    → Triple P m Q (λ _. Never) Never Never
    → Triple P (recovering m) Q (λ _. Never) Never Never
unfolding recovering
Triple-recovering {Q = Q} {m = m} t = record {
  at = λ w p. calm_or-Ends Q (m w).0 (m w).1 (t.at w p);
}

map_inr : {A B C : Type 0} → (B → C) → A ⊎ B → A ⊎ C
map_inr f (inl a) = inl a
map_inr f (inr b) = inr (f b)

unauthenticated :
    (x : Externals) (g : Gateway x.Outside) (next : Context → M (World x) Response) (c : Context)
    → c.api_key ≡ ""
    → (w : World x)
    → merchant_auth x g next c w ≡ (ok (unauthorized (error_text missing_api_key)), w)
unfolding merchant_auth pure
unauthenticated x g next c h w = rw h refl

unauthenticated-serve :
    (x : Externals) (g : Gateway x.Outside) (route : Route) (c : Context)
    → c.api_key ≡ ""
    → (w : World x) → serve x g route c w ≡ (ok (unauthorized (error_text missing_api_key)), w)
unfolding serve
unauthenticated-serve x g Route.authorize c h w = unauthenticated x g _ c h w
unauthenticated-serve x g Route.charge c h w = unauthenticated x g _ c h w
unauthenticated-serve x g Route.refund c h w = unauthenticated x g _ c h w
unauthenticated-serve x g Route.capture c h w = unauthenticated x g _ c h w
unauthenticated-serve x g Route.void c h w = unauthenticated x g _ c h w

-- The payments' routes.
abbrev pub is_payment : Endpoint → Bool
is_payment (Endpoint.payment route) = true
is_payment _ = false

-- Every route of a payment that is registered answers a request without an API key with 401 and the
-- text of a missing key, and nothing at all has changed. The other routes are the merchants'.
pub serve_registered_unauthenticated :
    (r : Router) (laws : RouterLaws r) (x : Externals) (g : Gateway x.Outside) (req : Request)
    (w : World x)
    → req.context.api_key ≡ ""
    → All
        (λ e.
          (is_payment e.endpoint ≡ false)
          ⊎ (serve_registered x g r laws e req w
              ≡ (ok (unauthorized (error_text missing_api_key)), w)))
        (register_routes r (initialize_router r))
serve_registered_unauthenticated r laws x g req w h =
    All-map (register_routes r (initialize_router r))
      (λ e runs. map_inr (λ same. ap (λ m. m w) runs ∙ same) (closed e.endpoint))
      (serve_registered-serve r laws x g req)
  where
    closed :
        (e : Endpoint)
        → (is_payment e ≡ false)
          ⊎ (reference r laws x g e req w ≡ (ok (unauthorized (error_text missing_api_key)), w))
    closed Endpoint.register = inl refl
    closed Endpoint.activate = inl refl
    closed (Endpoint.payment route) = inr (
        recovering_ok _ w _ (recovering_ok _ w _ (unauthenticated-serve x g route req.context h w)))

-- The routes that ask for an idempotency key.
abbrev pub asks_key : Endpoint → Bool
asks_key (Endpoint.payment Route.authorize) = true
asks_key (Endpoint.payment Route.charge) = true
asks_key (Endpoint.payment Route.refund) = true
asks_key _ = false

module _ (x : Externals) (l : TableLaws x.merchants merchant_columns)
    (lk : TableLaws x.api_keys api_key_columns) (g : Gateway x.Outside) (w : World x) where
  unkeyed :
      (next : Context → M (World x) Response) (c : Context)
      → c.idempotency_header ≡ ""
      → Refuses x l lk g w (merchant_auth x g (require_idempotency_key x g next) c)
  unfolding require_idempotency_key
  unkeyed next c h = merchant_auth-Refuses x l lk g w _ c λ m. rw h (unauthorized_lem x l lk g w _)

  unkeyed-serve :
      (route : Route) (c : Context)
      → c.idempotency_header ≡ ""
      → (asks_key (Endpoint.payment route) ≡ false) ⊎ Refuses x l lk g w (serve x g route c)
  unfolding serve
  unkeyed-serve Route.authorize c h = inr (unkeyed _ c h)
  unkeyed-serve Route.charge c h = inr (unkeyed _ c h)
  unkeyed-serve Route.refund c h = inr (unkeyed _ c h)
  unkeyed-serve Route.capture c h = inl refl
  unkeyed-serve Route.void c h = inl refl

  unkeyed-reference :
      (r : Router) (laws : RouterLaws r) (req : Request)
      → req.context.idempotency_header ≡ ""
      → (e : Endpoint) → (asks_key e ≡ false) ⊎ Refuses x l lk g w (reference r laws x g e req)
  unkeyed-reference r laws req h Endpoint.register = inl refl
  unkeyed-reference r laws req h Endpoint.activate = inl refl
  unkeyed-reference r laws req h (Endpoint.payment route) =
      map_inr (λ t. Triple-recovering (Triple-recovering t)) (unkeyed-serve route req.context h)

-- Every registered route for Authorize, Charge and Refund answers a request without an idempotency
-- key with 400 or 401, without an error or a panic, and no table, request, lock or background job
-- has changed.
pub serve_registered_unkeyed :
    (r : Router) (laws : RouterLaws r) (x : Externals) (l : TableLaws x.merchants merchant_columns)
    (lk : TableLaws x.api_keys api_key_columns) (g : Gateway x.Outside) (w : World x)
    (req : Request)
    → req.context.idempotency_header ≡ ""
    → All
        (λ e.
          (asks_key e.endpoint ≡ false)
          ⊎ (let (a, v) = serve_registered x g r laws e req w in
              Ends (IsRefusal x l lk g w) (λ _. Never) Never Never a v))
        (register_routes r (initialize_router r))
serve_registered_unkeyed r laws x l lk g w req h =
    All-map (register_routes r (initialize_router r))
      (λ e runs.
        map_inr
          (λ t.
            subst (λ m. Ends (IsRefusal x l lk g w) (λ _. Never) Never Never (m w).0 (m w).1)
              (sym runs)
              (t.at w (record { merchants = λ k. refl; api_keys = λ k. refl; rest = refl })))
          (unkeyed-reference x l lk g w r laws req h e.endpoint))
      (serve_registered-serve r laws x g req)
