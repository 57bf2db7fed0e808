-- ===== src/Payment/Charge.antt =====
-- `Charge`: the row that it saves has no reference of the gateway, which the capture then reads.
use card_payment_service.Prelude.{◌≡◌, ◌⊎◌, refl, ap, Option, none, some, ◌∷◌, inl, inr}
use card_payment_service.Domain.{Uuid, Transaction, PaymentType}
use card_payment_service.Effect.{Result, ok, err, both, panic, effects, panicking}
use card_payment_service.Effect.Triple.{
  Ends, Triple, Triple-pure, Triple-raise, Triple-deref, Triple-catch, Triple-bind, Triple-before,
  Triple-after, Triple-assume,
}
use card_payment_service.External.Table.{TableLaws, Reply, Created}
use card_payment_service.Gateway.{Gateway, TokenizeResponse}
use card_payment_service.World.{
  Externals, World, Call, on_transactions, send, take_outside, result_of,
}
use card_payment_service.Repository.{
  transaction_columns, idempotency_key_columns, create_transaction,
}
use card_payment_service.Payment.Types.{ChargeInput, ChargeOutput, decode_charge}
use card_payment_service.Payment.Calls.{GatewayOutcome, call_gateway_capture}
use card_payment_service.Payment.Transactions.{save_transaction}
use card_payment_service.Payment.Service.{
  charge, charge_or_replay, charge_with, must_parse_uuid, or_panic, tokenize_card_to_gateway,
}
use card_payment_service.Payment.Replay.{IsReplay, IsAnswer, cached_idempotency-triple}
use card_payment_service.Payment.Guards.{Never}

module _ (x : Externals) (l : TableLaws x.transactions transaction_columns)
    (li : TableLaws x.idempotency_keys idempotency_key_columns) (g : Gateway x.Outside)
    (input : ChargeInput) (w : World x) where
  -- the card of the request, as it is sent to be tokenized
  abbrev pub the_card : Call
  the_card = Call.tokenize (record {
    card_number = input.card_number;
    expiry_month = input.expiry_month;
    expiry_year = input.expiry_year;
    cvv = input.cvv;
  })

  -- The gateway was sent nothing, or the card alone.
  abbrev pub OnlyCard : World x → Type 0
  OnlyCard v = (v.calls ≡ w.calls) ⊎ (v.calls ≡ the_card ∷ w.calls)

  -- The output was stored under the key of the request, and the gateway was sent nothing.
  abbrev pub IsStored : ChargeOutput → World x → Type 0
  IsStored out v =
      (key : Uuid) × (x.parse_uuid input.idempotency_key ≡ some key)
      × IsReplay x li key input.merchant_id w.idempotency_keys (decode_charge x) out
      × (v.calls ≡ w.calls)

  -- A pending row has no reference.
  abbrev IsBare : Transaction → World x → Type 0
  IsBare tx v = (tx.gateway_ref ≡ none) × OnlyCard v

  Created-Ends :
      (tx : Transaction) (v : World x)
      → tx.gateway_ref ≡ none
      → OnlyCard v
      → (r : Reply Transaction × x.transactions.State)
      → Created transaction_columns l.at l.clock tx v.transactions r
      → Ends {W = World x} IsBare
          (λ _. OnlyCard)
          OnlyCard
          Never
          (result_of r.0)
          (record v { transactions = r.1 })
  Created-Ends tx v e c (inl t, s) h = (rw (h.0, e), c)
  Created-Ends tx v e c (inr f, s) h = c

  create_transaction-triple :
      (tx : Transaction)
      → tx.gateway_ref ≡ none
      → Triple OnlyCard (create_transaction x tx) IsBare (λ _. OnlyCard) OnlyCard Never
  unfolding create_transaction on_transactions
  create_transaction-triple tx e =
      Triple-catch {R = IsBare} {E' = OnlyCard}
        (record { at = λ v c. Created-Ends tx v e c _ (l.create_lem tx v.transactions) })
        (λ f. Triple-raise _ (λ v c. c)) (λ t. Triple-pure t (λ v h. h))

  new_uuid-triple :
      Triple OnlyCard
        (take_outside {x = x} x.new_uuid)
        (λ _. OnlyCard)
        (λ _. OnlyCard)
        OnlyCard
        OnlyCard
  unfolding take_outside
  new_uuid-triple = record { at = λ v c. c }

  save_transaction-triple :
      (tokenized : Option TokenizeResponse)
      → Triple OnlyCard
          (save_transaction x input PaymentType.direct_charge tokenized)
          IsBare
          (λ _. OnlyCard)
          OnlyCard
          OnlyCard
  unfolding save_transaction
  save_transaction-triple tokenized = Triple-bind (Triple-deref tokenized (λ e v c. c)) λ token.
      Triple-before (λ v h. h.0)
        (Triple-bind new_uuid-triple λ id.
          Triple-after (create_transaction-triple _ refl) (λ t v h. h) (λ t v h. h) (λ v h. h)
            (λ v h. absurd h))

  any_card :
      {A : Type 0} (r : Result A) (v : World x)
      → v.calls ≡ the_card ∷ w.calls
      → Ends {W = World x} (λ (_ : A). OnlyCard) (λ _. OnlyCard) OnlyCard OnlyCard r v
  any_card (ok a) v e = inr e
  any_card (err f) v e = inr e
  any_card (both a f) v e = inr e
  any_card (panic p) v e = inr e

  tokenize-triple :
      Triple
        (λ v. v.calls ≡ w.calls)
        (tokenize_card_to_gateway x g input)
        (λ _. OnlyCard)
        (λ _. OnlyCard)
        OnlyCard
        OnlyCard
  unfolding tokenize_card_to_gateway send
  tokenize-triple =
      Triple-catch {R = λ _. OnlyCard} {E' = OnlyCard}
        (record { at = λ v e. any_card _ _ (ap (λ cs. the_card ∷ cs) e) })
        (λ f. Triple-raise _ (λ v c. c)) (λ t. Triple-pure t (λ v c. c))

  -- Without a reference, the request of a capture is never built.
  bare_capture :
      {B : GatewayOutcome → World x → Type 0} {E : World x → Type 0} (tx : Transaction)
      → tx.gateway_ref ≡ none
      → Triple OnlyCard (call_gateway_capture x g tx) (λ _. Never) B E OnlyCard
  unfolding call_gateway_capture effects
  bare_capture tx e = rw e (record { at = λ v c. c })

  charge_with-triple :
      (idem_key : Uuid) (tokenized : Option TokenizeResponse)
      → Triple OnlyCard
          (charge_with x g
            (call_gateway_capture x g)
            PaymentType.direct_charge
            input
            idem_key
            tokenized)
          IsStored
          (λ _. Never)
          OnlyCard
          OnlyCard
  unfolding charge_with
  charge_with-triple idem_key tokenized =
      Triple-bind
        (Triple-after (save_transaction-triple tokenized) (λ t v h. h) (λ t v h. h) (λ v h. h)
          (λ v h. h))
        λ tx. Triple-assume λ v h.
          Triple-before (λ u k. k.1)
            (Triple-bind {R = λ _. Never} (bare_capture tx h.0)
              λ o. record { at = λ u e. absurd e })

  charge_or_replay-triple :
      (key : Uuid) (cached : Option ChargeOutput)
      → x.parse_uuid input.idempotency_key ≡ some key
      → Triple
          (λ v.
            (v.calls ≡ w.calls)
            × IsAnswer x li key input.merchant_id w.idempotency_keys (decode_charge x) cached)
          (charge_or_replay x g
            (call_gateway_capture x g)
            PaymentType.direct_charge
            input
            key
            cached)
          IsStored
          (λ _. Never)
          OnlyCard
          OnlyCard
  unfolding charge_or_replay
  charge_or_replay-triple key none e =
      Triple-before (λ v h. h.0) (Triple-bind tokenize-triple (charge_with-triple key))
  charge_or_replay-triple key (some out) e = Triple-pure out (λ v h. (key, e, h.1, h.0))

  parsed-triple :
      (parsed : Option Uuid)
      → x.parse_uuid input.idempotency_key ≡ parsed
      → Triple
          (λ v. v ≡ w)
          (or_panic x g parsed)
          (λ key v. (v ≡ w) × (x.parse_uuid input.idempotency_key ≡ some key))
          (λ _. OnlyCard)
          OnlyCard
          OnlyCard
  unfolding or_panic panicking
  parsed-triple none e = record { at = λ v s. inl (ap (λ (u : World x). u.calls) s) }
  parsed-triple (some key) e = Triple-pure key (λ v s. (s, e))

  -- `Charge` never gives an output of its own: with a value and no error, the value is the response
  -- that the merchant's live row of the idempotency key decodes to, and the gateway was sent
  -- nothing; it never gives a value with an error; and with an error or a panic the gateway was
  -- sent nothing but the card to tokenize. In particular no capture is ever requested.
  pub charge_only_replays :
      let (r, w') = charge x g input w in Ends IsStored (λ _. Never) OnlyCard OnlyCard r w'
  unfolding charge must_parse_uuid
  charge_only_replays =
      (Triple-bind (parsed-triple _ refl) λ key. Triple-assume λ v h.
          Triple-bind
            (Triple-after
              (Triple-before
                (λ u k.
                  (ap (λ (t : World x). t.calls) k.0, ap (λ (t : World x). t.idempotency_keys) k.0))
                (cached_idempotency-triple x li key input.merchant_id w.idempotency_keys
                  (λ s. s.calls ≡ w.calls) (decode_charge x)))
              (λ o u k. k) (λ o u k. k) (λ u k. k) (λ u e. absurd e))
            λ cached. charge_or_replay-triple key cached h.1).at
        w refl
