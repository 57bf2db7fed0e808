-- ===== src/Payment/Authorize.antt =====
-- `Authorize`: what it has done to the ledger when it ends.
pub mod Created
pub mod Held
pub mod Requests
use card_payment_service.Prelude.{String, ◌≡◌, ◌≢◌, ◌⊎◌, Option, none, some, List, ◌∷◌}
use card_payment_service.Domain.{Uuid, Transaction, TransactionStatus, PaymentType}
use card_payment_service.External.Table.{TableLaws}
use card_payment_service.World.{Externals, Call}
use card_payment_service.Repository.{transaction_columns}
use card_payment_service.Payment.Types.{ChargeInput, ChargeOutput}
use card_payment_service.Payment.Guards.{Ledger, IsQuiet}
use card_payment_service.Payment.Settle.{IsSent}

-- the card of a request, as it is sent to be tokenized
abbrev pub card_call : ChargeInput → Call
card_call input = Call.tokenize (record {
  card_number = input.card_number;
  expiry_month = input.expiry_month;
  expiry_year = input.expiry_year;
  cvv = input.cvv;
})

-- A row is about the charge of a request.
pub record IsAbout (input : ChargeInput) (t : Transaction) : Type 0 where
  pub merchant_id : t.merchant_id ≡ input.merchant_id
  pub amount : t.amount ≡ input.amount
  pub currency : t.currency ≡ input.currency
  pub idempotency_key : t.idempotency_key ≡ input.idempotency_key
  pub payment_type : t.payment_type ≡ PaymentType.authorize_capture

module _ (x : Externals) (l : TableLaws x.transactions transaction_columns)
    (input : ChargeInput) where
  -- the request of a hold, about a row
  abbrev pub hold_call : Transaction → Call
  hold_call t =
      Call.authorize
        (record { amount = t.amount; currency = t.currency; order_id = x.uuid_text t.id })

  -- One row about the request has been added, where no row was, and has the status; the calls are
  -- those given, and no other row and no refund has changed.
  pub record IsOpened (status : TransactionStatus) (calls_of : Transaction → List Call)
      (t : Transaction) (w v : Ledger x) : Type 0 where
    pub fresh : l.at w.transactions t.id ≡ none
    pub stored : l.at v.transactions t.id ≡ some t
    pub about : IsAbout input t
    pub status_is : t.status ≡ status
    pub others : (k : Uuid) → k ≢ t.id → l.at v.transactions k ≡ l.at w.transactions k
    pub calls : v.calls ≡ calls_of t
    pub refunds : v.refunds ≡ w.refunds

  -- The card was tokenized and a hold on the row requested.
  abbrev pub IsHeldRow : TransactionStatus → Transaction → Ledger x → Ledger x → Type 0
  IsHeldRow status t w v = IsOpened status (λ t. hold_call t ∷ card_call input ∷ w.calls) t w v

  -- The output is about a row that was added and has the status.
  abbrev pub HasHeld : TransactionStatus → ChargeOutput → Ledger x → Ledger x → Type 0
  HasHeld status out w v =
      (t : Transaction) × IsHeldRow status t w v
      × (out.transaction_id ≡ t.id)
      × (out.status ≡ status)

  -- No row was added, and at most the card was sent; or the hold was requested, and its row is
  -- still pending.
  abbrev pub HasNotHeld : Ledger x → Ledger x → Type 0
  HasNotHeld w v =
      IsQuiet x l w v
      ⊎ (IsSent x l (card_call input) w v
          ⊎ ((t : Transaction) × IsHeldRow TransactionStatus.pending t w v))
