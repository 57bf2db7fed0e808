-- ===== src/Tests/Table.antt =====
-- Runs of the registered routes, and their theorems at concrete inputs.
use card_payment_service.Prelude.{
  String, ◌≡◌, ◌⊎◌, refl, none, List, [], ◌∷◌, ◌++◌, All, false, map,
}
use card_payment_service.Domain.{error_text, missing_api_key}
use card_payment_service.Effect.{ok}
use card_payment_service.Effect.Triple.{Ends}
use card_payment_service.Http.{unauthorized}
use card_payment_service.Http.Routes.Table.{
  Middleware, Router, RouterLaws, Request, register_merchant, register_payment, register_routes,
  initialize_router, serve_registered,
}
use card_payment_service.Http.Routes.Meta.{IsRefusal}
use card_payment_service.Http.Routes.Guarded.{
  is_payment, asks_key, serve_registered_unauthenticated, serve_registered_unkeyed,
}
use card_payment_service.Payment.Guards.{Never}
use card_payment_service.Demo.{demo, demo_gateway, merchants-TableLaws, api_keys-TableLaws}
use card_payment_service.Tests.Routes.{owner_world, capture_request}

-- groups as their path and their middleware
abbrev paths : Router
paths = record {
  RouterGroup = List String × List Middleware;
  default_engine = ([], Middleware.logged ∷ Middleware.recovered ∷ []);
  group = λ rg path. (rg.0 ++ path ∷ [], rg.1);
  use_middleware = λ rg m. (rg.0, rg.1 ++ m ∷ []);
}

abbrev paths-RouterLaws : RouterLaws paths
paths-RouterLaws = record {
  middlewares = λ rg. rg.1;
  default_engine_lem = refl;
  group_lem = λ rg path. refl;
  use_middleware_lem = λ rg m. refl;
}

abbrev outer : List Middleware
outer = Middleware.logged ∷ Middleware.recovered ∷ Middleware.logged ∷ Middleware.recovered ∷ []

registered_paths :
    map {B = List String × List Middleware}
      (λ e. (e.rg.0 ++ e.path ∷ [], e.rg.1))
      (register_routes paths (initialize_router paths))
    ≡ ("/v1" ∷ "/merchants" ∷ "/register" ∷ [], outer)
      ∷ ("/v1" ∷ "/merchants" ∷ "/activate" ∷ [], outer)
      ∷ (
        "/v1" ∷ "/payments" ∷ "" ∷ "/authorize" ∷ [],
        outer ++ Middleware.authenticated ∷ Middleware.keyed ∷ [],
      )
      ∷ (
        "/v1" ∷ "/payments" ∷ "" ∷ "/charge" ∷ [],
        outer ++ Middleware.authenticated ∷ Middleware.keyed ∷ [],
      )
      ∷ (
        "/v1" ∷ "/payments" ∷ "" ∷ "/refund/:transaction_id" ∷ [],
        outer ++ Middleware.authenticated ∷ Middleware.keyed ∷ [],
      )
      ∷ (
        "/v1" ∷ "/payments" ∷ "/:transaction_id/capture" ∷ [],
        outer ++ Middleware.authenticated ∷ [],
      )
      ∷ ("/v1" ∷ "/payments" ∷ ":transaction_id/void" ∷ [], outer ++ Middleware.authenticated ∷ [])
      ∷ []
unfolding register_routes register_merchant register_payment initialize_router
registered_paths = refl

abbrev no_key : Request
no_key = record {
  context = record capture_request { api_key = "" };
  registration = none;
  email = none;
}

abbrev no_idempotency_key : Request
no_idempotency_key = record {
  context = record capture_request { idempotency_header = "" };
  registration = none;
  email = none;
}

serve_registered_unauthenticated_example :
    All
      (λ e.
        (is_payment e.endpoint ≡ false)
        ⊎ (serve_registered demo demo_gateway paths paths-RouterLaws e no_key owner_world
            ≡ (ok (unauthorized (error_text missing_api_key)), owner_world)))
      (register_routes paths (initialize_router paths))
serve_registered_unauthenticated_example =
    serve_registered_unauthenticated paths paths-RouterLaws demo demo_gateway no_key owner_world
      refl

serve_registered_unkeyed_example :
    All
      (λ e.
        (asks_key e.endpoint ≡ false)
        ⊎ (let (a, v) =
              serve_registered demo demo_gateway paths paths-RouterLaws e no_idempotency_key
                owner_world in
            Ends
              (IsRefusal demo merchants-TableLaws api_keys-TableLaws demo_gateway owner_world)
              (λ _. Never)
              Never
              Never
              a
              v))
      (register_routes paths (initialize_router paths))
serve_registered_unkeyed_example =
    serve_registered_unkeyed paths paths-RouterLaws demo merchants-TableLaws api_keys-TableLaws
      demo_gateway owner_world no_idempotency_key refl
