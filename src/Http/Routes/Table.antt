-- ===== src/Http/Routes/Table.antt =====
-- internal/router/router.go and the router of cmd/server/main.go: the routes that RegisterRoutes
-- registers, with the middleware of the engine and of the groups they stand in. gin's groups are a
-- parameter.

use card_payment_service.Prelude.{String, false, ◌≡◌, Option, List, [], ◌∷◌, ◌++◌}
use card_payment_service.Effect.{M, Result, ok, panic}
use card_payment_service.Gateway.{Gateway}
use card_payment_service.World.{Externals, World}
use card_payment_service.Merchant.{RegisterInput}
use card_payment_service.Http.{Response, Payload, Context}
use card_payment_service.Http.Handlers.{
  handle_authorize, handle_charge, handle_capture, handle_void, handle_refund, handle_register,
  handle_activate,
}
use card_payment_service.Http.Routes.{Route, merchant_auth, require_idempotency_key}

-- `logged` is a logger, gin's own or GinLogger; `recovered` is gin's Recovery.
pub data Middleware : Type 0 where
  authenticated keyed logged recovered : Middleware

pub data Method : Type 0 where
  post patch : Method

pub data Endpoint : Type 0 where
  register activate : Endpoint
  payment : Route → Endpoint

-- gin's `Default`, `Group` and `Use`; an engine is the group of its root
pub record Router : Type 1 where
  pub RouterGroup : Type 0
  pub default_engine : RouterGroup
  pub group : RouterGroup → String → RouterGroup
  pub use_middleware : RouterGroup → Middleware → RouterGroup

-- What gin's documentation says of them: the default engine has a logger and the recovery, a group
-- takes over its parent's middleware, and `Use` adds one after the others.
pub record RouterLaws (r : Router) : Type 0 where
  pub middlewares : r.RouterGroup → List Middleware
  pub default_engine_lem :
      middlewares r.default_engine ≡ Middleware.logged ∷ Middleware.recovered ∷ []
  pub group_lem :
      (rg : r.RouterGroup) (path : String) → middlewares (r.group rg path) ≡ middlewares rg
  pub use_middleware_lem :
      (rg : r.RouterGroup) (m : Middleware)
      → middlewares (r.use_middleware rg m) ≡ middlewares rg ++ m ∷ []

module _ (r : Router) where
  pub record RegisteredRoute : Type 0 where
    pub rg : r.RouterGroup
    pub method : Method
    pub path : String
    pub endpoint : Endpoint

  -- `registerMerchant`
  unfoldable pub register_merchant : r.RouterGroup → List RegisteredRoute
  register_merchant rg =
      let merchant = r.group rg "/merchants" in
      record {
        rg = merchant;
        method = Method.post;
        path = "/register";
        endpoint = Endpoint.register;
      }
      ∷ record {
        rg = merchant;
        method = Method.patch;
        path = "/activate";
        endpoint = Endpoint.activate;
      }
      ∷ []

  -- `POST` of a payment's handler
  abbrev pub payment_route : r.RouterGroup → String → Route → RegisteredRoute
  payment_route rg path route = record {
    rg = rg;
    method = Method.post;
    path = path;
    endpoint = Endpoint.payment route;
  }

  -- `registerPayment`
  unfoldable pub register_payment : r.RouterGroup → List RegisteredRoute
  register_payment rg =
      let payment = r.use_middleware (r.group rg "/payments") Middleware.authenticated in
      let with_idem_key = r.use_middleware (r.group payment "") Middleware.keyed in
      payment_route with_idem_key "/authorize" Route.authorize
      ∷ payment_route with_idem_key "/charge" Route.charge
      ∷ payment_route with_idem_key "/refund/:transaction_id" Route.refund
      ∷ payment_route payment "/:transaction_id/capture" Route.capture
      ∷ payment_route payment ":transaction_id/void" Route.void
      ∷ []

  -- `RegisterRoutes`
  unfoldable pub register_routes : r.RouterGroup → List RegisteredRoute
  register_routes engine =
      let v1 = r.group engine "/v1" in register_merchant v1 ++ register_payment v1

  -- the engine that `main` makes for it
  unfoldable pub initialize_router : r.RouterGroup
  initialize_router =
      r.use_middleware (r.use_middleware r.default_engine Middleware.logged) Middleware.recovered

-- a request: gin's context, and the bodies that the merchants' handlers bind
pub record Request : Type 0 where
  pub context : Context
  pub registration : Option RegisterInput
  pub email : Option String

-- gin's Recovery answers a panic with 500 and no body.
abbrev pub aborted : Response
aborted = record { code = 500; success = false; error = ""; payload = Payload.nothing }

abbrev pub calm_or : {A : Type 0} → A → Result A → Result A
calm_or a (panic p) = ok a
calm_or a r = r

unfoldable pub recovering : {W : Type 0} → M W Response → M W Response
recovering m w = (calm_or aborted (m w).0, (m w).1)

module _ (x : Externals) (g : Gateway x.Outside) where
  unfoldable pub run_middleware :
      Middleware → (Context → M (World x) Response) → Context → M (World x) Response
  run_middleware Middleware.authenticated next = merchant_auth x g next
  run_middleware Middleware.keyed next = require_idempotency_key x g next
  run_middleware Middleware.logged next = next
  run_middleware Middleware.recovered next = λ c. recovering (next c)

  -- each middleware before the next, and the handler last
  unfoldable pub run_chain :
      List Middleware → (Context → M (World x) Response) → Context → M (World x) Response
  run_chain [] handler = handler
  run_chain (m ∷ ms) handler = run_middleware m (run_chain ms handler)

  unfoldable pub run_endpoint : Endpoint → Request → Context → M (World x) Response
  run_endpoint Endpoint.register req c = handle_register x req.registration
  run_endpoint Endpoint.activate req c = handle_activate x req.email
  run_endpoint (Endpoint.payment Route.authorize) req c = handle_authorize x g c
  run_endpoint (Endpoint.payment Route.charge) req c = handle_charge x g c
  run_endpoint (Endpoint.payment Route.refund) req c = handle_refund x g c
  run_endpoint (Endpoint.payment Route.capture) req c = handle_capture x g c
  run_endpoint (Endpoint.payment Route.void) req c = handle_void x g c

  module _ (r : Router) (laws : RouterLaws r) where
    -- a request to a registered route
    unfoldable pub serve_registered : RegisteredRoute r → Request → M (World x) Response
    serve_registered e req =
        run_chain (laws.middlewares e.rg) (run_endpoint e.endpoint req) req.context
