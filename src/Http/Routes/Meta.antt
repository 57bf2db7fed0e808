-- ===== src/Http/Routes/Meta.antt =====
-- The routes whose handlers read the request's metadata: refund, capture and void.
use card_payment_service.Prelude.{
  String, ◌≡◌, ◌⊎◌, refl, Option, none, some, Bool, true, false, inl, inr, str_eq,
}
use card_payment_service.Domain.{Error, Merchant, message}
use card_payment_service.Effect.{M, deref, pure}
use card_payment_service.Effect.Triple.{
  Ends, Triple, Triple-pure, Triple-catch, Triple-bind, Triple-if, Triple-after,
}
use card_payment_service.External.Table.{TableLaws, Reply}
use card_payment_service.Gateway.{Gateway}
use card_payment_service.World.{Externals, World}
use card_payment_service.Repository.{merchant_columns, api_key_columns}
use card_payment_service.Auth.Keys.{AuthAnswer, SameRows, validate-triple}
use card_payment_service.Http.{
  Response, Value, Context, PaymentRequestMeta, then_reply, get_payment_meta, get_transaction_id,
  get_merchant_id, get_idempotency_key, unauthorized,
}
use card_payment_service.Http.Handlers.{with_meta, handle_capture, handle_void, handle_refund}
use card_payment_service.Http.Routes.{Route, serve, merchant_auth, require_idempotency_key}
use card_payment_service.Payment.Guards.{Never}

abbrev pub reads_meta : Route → Bool
reads_meta Route.refund = true
reads_meta Route.capture = true
reads_meta Route.void = true
reads_meta _ = false

third_fails :
    {A B C D : Type 0} (a : Reply A) (b : Reply B) (c : Reply C) (k : A → B → C → D) (e : Error)
    → c ≡ inr e
    → (f : Error) × (then_reply a (λ i. then_reply b (λ j. then_reply c (λ h. inl (k i j h))))
        ≡ inr f)
third_fails (inr f) b c k e h = (f, refl)
third_fails (inl i) (inr f) c k e h = (f, refl)
third_fails (inl i) (inl j) (inr f) k e h = (f, refl)
third_fails (inl i) (inl j) (inl c) k e h = cc

module _ (x : Externals) (l : TableLaws x.merchants merchant_columns)
    (lk : TableLaws x.api_keys api_key_columns) (g : Gateway x.Outside) (w : World x) where
  -- Bad request or unauthorized, and no table, request, lock or background job has changed.
  abbrev pub IsRefusal : Response → World x → Type 0
  IsRefusal resp v = ((resp.code ≡ 400) ⊎ (resp.code ≡ 401)) × SameRows x l lk w v

  abbrev pub Refuses : M (World x) Response → Type 0
  Refuses m = Triple (SameRows x l lk w) m IsRefusal (λ _. Never) Never Never

  no_meta :
      (f : PaymentRequestMeta → M (World x) Response) (c : Context) (e : Error)
      → get_idempotency_key c ≡ inr e
      → Refuses (with_meta x g f (get_payment_meta x c))
  unfolding with_meta get_payment_meta
  no_meta f c e h =
      let failed : (e' : Error) × (get_payment_meta x c ≡ inr e') =
        third_fails (get_transaction_id x c) (get_merchant_id c) (get_idempotency_key c) _ e h in
      rw failed.1 (Triple-pure _ (λ v s. (inl refl, s)))

  pub unauthorized_lem : (t : String) → Refuses (pure (unauthorized t))
  unfolding unauthorized
  unauthorized_lem t = Triple-pure _ (λ v s. (inr refl, s))

  deref_answer :
      (api_key : String) (found : Option Merchant)
      → Triple
          (AuthAnswer x l lk w api_key found)
          (deref found)
          (λ m. SameRows x l lk w)
          (λ _. Never)
          Never
          Never
  unfolding deref pure
  deref_answer api_key none = record { at = λ v h. absurd h }
  deref_answer api_key (some m) = record { at = λ v h. h.1 }

  pub merchant_auth-Refuses :
      (next : Context → M (World x) Response) (c : Context)
      → ((v : Option Value) → Refuses (next (record c { merchant_value = v })))
      → Refuses (merchant_auth x g next c)
  unfolding merchant_auth
  merchant_auth-Refuses next c refuses =
      Triple-if (str_eq c.api_key "") (λ _. unauthorized_lem _)
        (λ _.
          Triple-catch
            (Triple-after (validate-triple x l lk w c.api_key) (λ o v h. h) (λ o v h. h) (λ v h. h)
              (λ v h. h))
            (λ e. unauthorized_lem _)
            (λ found. Triple-bind (deref_answer c.api_key found) λ m. refuses _))

  require_idempotency_key-Refuses :
      (next : Context → M (World x) Response) (c : Context)
      → Refuses (next (record c { idempotency_value = some (Value.text c.idempotency_header) }))
      → Refuses (require_idempotency_key x g next c)
  unfolding require_idempotency_key
  require_idempotency_key-Refuses next c refuses =
      Triple-if (str_eq c.idempotency_header "") (λ _. unauthorized_lem _) (λ _. refuses)

  mistyped :
      (c : Context) (t : String)
      → c.idempotency_value ≡ some (Value.text t)
      → get_idempotency_key c ≡ inr (message "idempotency key invalid type")
  unfolding get_idempotency_key
  mistyped c t e = rw e refl

  missing :
      (c : Context)
      → c.idempotency_value ≡ none
      → get_idempotency_key c ≡ inr (message "missing idempotency key")
  unfolding get_idempotency_key
  missing c e = rw e refl

  serve-Refuses :
      (route : Route) (c : Context)
      → reads_meta route ≡ true
      → c.idempotency_value ≡ none
      → Refuses (serve x g route c)
  unfolding serve handle_refund handle_capture handle_void
  serve-Refuses Route.authorize c h e = cc
  serve-Refuses Route.charge c h e = cc
  serve-Refuses Route.refund c h e = merchant_auth-Refuses _ c λ m.
      require_idempotency_key-Refuses _ (record c { merchant_value = m })
        (no_meta _ _ _ (mistyped _ c.idempotency_header refl))
  serve-Refuses Route.capture c h e = merchant_auth-Refuses _ c λ m. no_meta _ _ _ (missing _ e)
  serve-Refuses Route.void c h e = merchant_auth-Refuses _ c λ m. no_meta _ _ _ (missing _ e)

-- The routes for refund, capture and void never reach the service: on a request in which no
-- middleware has stored an idempotency key before, they answer 400 or 401, without an error or a
-- panic, and no table, request, lock or background job has changed.
pub serve_refuses :
    (x : Externals) (l : TableLaws x.merchants merchant_columns)
    (lk : TableLaws x.api_keys api_key_columns) (g : Gateway x.Outside) (w : World x)
    (route : Route) (c : Context)
    → reads_meta route ≡ true
    → c.idempotency_value ≡ none
    → let (r, v) = serve x g route c w in Ends (IsRefusal x l lk g w) (λ _. Never) Never Never r v
serve_refuses x l lk g w route c reads fresh =
    (serve-Refuses x l lk g w route c reads fresh).at w
      (record { merchants = λ k. refl; api_keys = λ k. refl; rest = refl })
