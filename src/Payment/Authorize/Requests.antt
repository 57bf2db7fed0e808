-- ===== src/Payment/Authorize/Requests.antt =====
-- `Authorize` as a whole: every way in which it ends.
use card_payment_service.Prelude.{◌≡◌, ◌⊎◌, refl, ap, Option, none, some, inl, inr}
use card_payment_service.Domain.{Uuid, TransactionStatus, PaymentType}
use card_payment_service.Effect.{panicking}
use card_payment_service.Effect.Triple.{
  Ends, Triple, Triple-pure, Triple-bind, Triple-before, Triple-after, Triple-assume,
}
use card_payment_service.External.Table.{TableLaws}
use card_payment_service.Gateway.{Gateway, TokenizeResponse}
use card_payment_service.World.{Externals, World}
use card_payment_service.Repository.{transaction_columns, idempotency_key_columns}
use card_payment_service.Payment.Types.{ChargeInput, ChargeOutput, decode_charge}
use card_payment_service.Payment.Calls.{call_gateway_authorize}
use card_payment_service.Payment.Service.{
  authorize, charge_or_replay, charge_with, must_parse_uuid, or_panic,
}
use card_payment_service.Payment.Replay.{IsReplay, IsAnswer, cached_idempotency-triple}
use card_payment_service.Payment.Guards.{ledger, IsQuiet}
use card_payment_service.Payment.Authorize.{HasHeld, HasNotHeld}
use card_payment_service.Payment.Authorize.Created.{
  CardSent, save_transaction-triple, tokenize-triple,
}
use card_payment_service.Payment.Authorize.Held.{hold-triple}

module _ (x : Externals) (l : TableLaws x.transactions transaction_columns)
    (li : TableLaws x.idempotency_keys idempotency_key_columns) (g : Gateway x.Outside)
    (input : ChargeInput) (w : World x) where
  -- The output was stored under the key of the request, and nothing has happened.
  abbrev pub IsReplayed : ChargeOutput → World x → Type 0
  IsReplayed out v =
      (key : Uuid) × (x.parse_uuid input.idempotency_key ≡ some key)
      × IsReplay x li key input.merchant_id w.idempotency_keys (decode_charge x) out
      × IsQuiet x l (ledger w) (ledger v)

  -- The output was stored, or the hold was granted.
  abbrev pub AuthorizeAnswer : ChargeOutput → World x → Type 0
  AuthorizeAnswer out v =
      IsReplayed out v ⊎ HasHeld x l input TransactionStatus.authorized out (ledger w) (ledger v)

  -- The hold was refused.
  abbrev pub AuthorizeRefusal : ChargeOutput → World x → Type 0
  AuthorizeRefusal out v = HasHeld x l input TransactionStatus.failed out (ledger w) (ledger v)

  -- No hold is recorded.
  abbrev pub AuthorizeFailure : World x → Type 0
  AuthorizeFailure v = HasNotHeld x l input (ledger w) (ledger v)

  charge_with-triple :
      (key : Uuid) (tokenized : Option TokenizeResponse)
      → Triple
          (CardSent x l input (ledger w))
          (charge_with x g
            (call_gateway_authorize x g)
            PaymentType.authorize_capture
            input
            key
            tokenized)
          AuthorizeAnswer
          AuthorizeRefusal
          AuthorizeFailure
          AuthorizeFailure
  unfolding charge_with
  charge_with-triple key tokenized =
      Triple-bind (save_transaction-triple x l input (ledger w) tokenized) λ t. record {
        at = λ u saved.
            (Triple-after (hold-triple x l g input (ledger w) t u saved key) (λ out v h. inr h)
                (λ out v h. h) (λ v h. h) (λ v h. h)).at
              u (record { row = λ k. refl; calls = refl; refunds = refl });
      }

  charge_or_replay-triple :
      (key : Uuid) (cached : Option ChargeOutput)
      → x.parse_uuid input.idempotency_key ≡ some key
      → Triple
          (λ v.
            IsQuiet x l (ledger w) (ledger v)
            × IsAnswer x li key input.merchant_id w.idempotency_keys (decode_charge x) cached)
          (charge_or_replay x g
            (call_gateway_authorize x g)
            PaymentType.authorize_capture
            input
            key
            cached)
          AuthorizeAnswer
          AuthorizeRefusal
          AuthorizeFailure
          AuthorizeFailure
  unfolding charge_or_replay
  charge_or_replay-triple key none e =
      Triple-before (λ v h. h.0)
        (Triple-bind
          (Triple-after (tokenize-triple x l input (ledger w) g) (λ r v h. h) (λ r v h. h)
            (λ v h. h) (λ v h. h))
          (charge_with-triple key))
  charge_or_replay-triple key (some out) e = Triple-pure out (λ v h. inl (key, e, h.1, h.0))

  parsed-triple :
      (parsed : Option Uuid)
      → x.parse_uuid input.idempotency_key ≡ parsed
      → Triple
          (λ v. v ≡ w)
          (or_panic x g parsed)
          (λ key v. (v ≡ w) × (x.parse_uuid input.idempotency_key ≡ some key))
          (λ _. AuthorizeFailure)
          AuthorizeFailure
          AuthorizeFailure
  unfolding or_panic panicking
  parsed-triple none e = record {
    at = λ v s. inl (record {
      row = λ k. ap (λ (u : World x). l.at u.transactions k) s;
      calls = ap (λ (u : World x). u.calls) s;
      refunds = ap (λ (u : World x). u.refunds) s;
    });
  }
  parsed-triple (some key) e = Triple-pure key (λ v s. (s, e))

  -- How `Authorize` ends, whatever the gateway and the database answer. With a value and no error:
  -- either the value is the response that the merchant's live row of the idempotency key decodes
  -- to, and nothing was sent or changed; or the card and one hold were sent, and one authorized
  -- transaction was added under an id where no row was, of the merchant, amount, currency and
  -- idempotency key of the request, with no other row and no refund changed, and the value has its
  -- id and status. With a value and an error: the same, but the transaction is failed. With an
  -- error alone or a panic: no transaction was added and at most the card was sent, or the hold was
  -- sent and the added transaction is still pending.
  pub authorize_settles :
      let (r, v) = authorize x g input w in
      Ends AuthorizeAnswer AuthorizeRefusal AuthorizeFailure AuthorizeFailure r v
  unfolding authorize must_parse_uuid
  authorize_settles =
      (Triple-bind (parsed-triple _ refl) λ key. Triple-assume λ v h.
          Triple-bind
            (Triple-after
              (Triple-before
                (λ u k. (
                  record {
                    row = λ j. ap (λ (t : World x). l.at t.transactions j) k.0;
                    calls = ap (λ (t : World x). t.calls) k.0;
                    refunds = ap (λ (t : World x). t.refunds) k.0;
                  },
                  ap (λ (t : World x). t.idempotency_keys) k.0,
                ))
                (cached_idempotency-triple x li key input.merchant_id w.idempotency_keys
                  (IsQuiet x l (ledger w)) (decode_charge x)))
              (λ o u k. k) (λ o u k. k) (λ u k. k) (λ u e. absurd e))
            λ cached. charge_or_replay-triple key cached h.1).at
        w refl
