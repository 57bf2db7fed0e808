-- ===== src/Http/Routes/Bound.antt =====
-- The routes for authorize and charge up to the service: the authentication, the idempotency key and
-- the body, whatever the service's operation is.
use card_payment_service.Prelude.{◌≡◌, refl, sym, subst, Option, none, some, false, str_eq}
use card_payment_service.Domain.{Merchant}
use card_payment_service.Effect.{M, deref, pure, effects}
use card_payment_service.Effect.Triple.{
  Triple, Triple-pure, Triple-catch, Triple-bind, Triple-if, Triple-before, Triple-after,
  Triple-assume,
}
use card_payment_service.External.Table.{TableLaws}
use card_payment_service.Gateway.{Gateway}
use card_payment_service.World.{Externals, World}
use card_payment_service.Repository.{merchant_columns, api_key_columns}
use card_payment_service.Auth.Keys.{AuthAnswer, IsOwner, SameRows, validate-triple}
use card_payment_service.Payment.Types.{ChargeInput, ChargeOutput}
use card_payment_service.Payment.Guards.{Never}
use card_payment_service.Http.{
  Response, Value, Context, AuthorizePaymentRequest, bad_request, unauthorized,
}
use card_payment_service.Http.Handlers.{
  charge_bound, respond, to_charge_input, must_get_uuid, must_get_text,
}
use card_payment_service.Http.Routes.{merchant_auth, require_idempotency_key}

-- the input of the service: the body, the key's merchant, and the header's idempotency key
abbrev pub input_of : Context → Merchant → AuthorizePaymentRequest → ChargeInput
input_of c m req = record {
  amount = req.amount;
  card_number = req.card_number;
  currency = req.currency;
  cvv = req.cvv;
  description = req.description;
  expiry_month = req.expiry_month;
  expiry_year = req.expiry_year;
  idempotency_key = c.idempotency_header;
  merchant_id = m.id;
}

module _ (x : Externals) (lm : TableLaws x.merchants merchant_columns)
    (lk : TableLaws x.api_keys api_key_columns) (c : Context) (w : World x) where
  -- The request was authenticated and its body bound, and so `Q` holds of the input.
  abbrev pub IsBound : (ChargeInput → Type 0) → Type 0
  IsBound Q =
      (m : Merchant) × (req : AuthorizePaymentRequest) × IsOwner x lm lk w c.api_key m
      × (c.body ≡ some req)
      × Q (input_of c m req)

  module _ (g : Gateway x.Outside) (Served : Response → World x → Type 0)
      (Declined : World x → Type 0) where
    abbrev pub Serves : M (World x) Response → Type 0
    Serves m = Triple (SameRows x lm lk w) m Served (λ _. Never) Declined Declined

    module _ (service : ChargeInput → M (World x) ChargeOutput) (answer : ChargeOutput → Response)
        (turned_away : (resp : Response) (v : World x)
          → resp.success ≡ false
          → SameRows x lm lk w v
          → Served resp v)
        (served : (m : Merchant) (req : AuthorizePaymentRequest)
          → IsOwner x lm lk w c.api_key m
          → c.body ≡ some req
          → Serves (respond x g (service (input_of c m req)) answer)) where
      module _ (m : Merchant) (owner : IsOwner x lm lk w c.api_key m) where
        -- the request as the two middlewares leave it
        abbrev stored : Context
        stored = record c {
          merchant_value = some (Value.uuid m.id);
          idempotency_value = some (Value.text c.idempotency_header);
        }

        input-triple :
            {E X : World x → Type 0} (req : AuthorizePaymentRequest)
            → Triple
                (SameRows x lm lk w)
                (to_charge_input stored req)
                (λ i v. SameRows x lm lk w v × (i ≡ input_of c m req))
                (λ _. E)
                E
                X
        unfolding to_charge_input must_get_uuid must_get_text effects pure
        input-triple req = record { at = λ v s. (s, refl) }

        bound-triple :
            (body : Option AuthorizePaymentRequest)
            → c.body ≡ body
            → Serves (charge_bound x g service answer stored body)
        unfolding charge_bound bad_request
        bound-triple none e = Triple-pure _ (λ v s. turned_away _ v refl s)
        bound-triple (some req) e = Triple-bind (input-triple req) λ i. Triple-assume λ v h.
            Triple-before (λ u k. k.0)
              (subst (λ j. Serves (respond x g (service j) answer)) (sym h.1)
                (served m req owner e))

        key-triple : Serves (
            require_idempotency_key x g
              (λ d. charge_bound x g service answer d d.body)
              (record c { merchant_value = some (Value.uuid m.id) }))
        unfolding require_idempotency_key unauthorized
        key-triple =
            Triple-if (str_eq c.idempotency_header "")
              (λ _. Triple-pure _ (λ v s. turned_away _ v refl s)) (λ _. bound-triple c.body refl)

      deref_answer :
          (found : Option Merchant)
          → Triple
              (AuthAnswer x lm lk w c.api_key found)
              (deref found)
              (λ m v. IsOwner x lm lk w c.api_key m × SameRows x lm lk w v)
              (λ _. Never)
              Declined
              Declined
      unfolding deref pure
      deref_answer none = record { at = λ v h. absurd h }
      deref_answer (some m) = record { at = λ v h. h }

      pub serve-triple : Serves (
          merchant_auth x g
            (require_idempotency_key x g (λ d. charge_bound x g service answer d d.body))
            c)
      unfolding merchant_auth unauthorized
      serve-triple =
          Triple-if (str_eq c.api_key "") (λ _. Triple-pure _ (λ v s. turned_away _ v refl s))
            (λ _.
              Triple-catch
                (Triple-after (validate-triple x lm lk w c.api_key) (λ o v h. h) (λ o v h. h)
                  (λ v h. h) (λ v h. absurd h))
                (λ e. Triple-pure _ (λ v s. turned_away _ v refl s))
                (λ found.
                  Triple-bind
                    (Triple-after (deref_answer found) (λ o v h. h) (λ o v h. absurd h) (λ v h. h)
                      (λ v h. h))
                    λ m. Triple-assume λ v h. Triple-before (λ u k. k.1) (key-triple m h.0)))
