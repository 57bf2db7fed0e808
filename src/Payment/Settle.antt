-- ===== src/Payment/Settle.antt =====
-- One request of the gateway and one update: what an operation on a stored transaction has done
-- when it ends.
pub mod Steps
pub mod Locked
pub mod Asked
pub mod Capture
pub mod Requests
pub mod Once
pub mod Refund
use card_payment_service.Prelude.{
  String, ◌≡◌, ◌≢◌, ◌⊎◌, refl, Option, none, some, List, ◌∷◌, inl, inr,
}
use card_payment_service.Domain.{Uuid, Transaction, TransactionStatus}
use card_payment_service.External.Table.{TableLaws}
use card_payment_service.World.{Externals, Call}
use card_payment_service.Repository.{transaction_columns}
use card_payment_service.Payment.Lifecycle.{SameCharge}
use card_payment_service.Payment.Guards.{Ledger, IsQuiet, IsRow}

module _ (x : Externals) (l : TableLaws x.transactions transaction_columns) where
  -- One request has gone to the gateway, and nothing else has happened.
  pub record IsSent (c : Call) (w v : Ledger x) : Type 0 where
    pub row : (k : Uuid) → l.at v.transactions k ≡ l.at w.transactions k
    pub calls : v.calls ≡ c ∷ w.calls
    pub refunds : v.refunds ≡ w.refunds

  -- The row under `id` has become `t`, which is about the same charge, and no other row has changed.
  pub record IsUpdated (id : Uuid) (t : Transaction) (w v : Ledger x) : Type 0 where
    pub stored : l.at v.transactions id ≡ some t
    pub same_id : t.id ≡ id
    pub kept : (old : Transaction) × (l.at w.transactions id ≡ some old) × SameCharge old t
    pub others : (k : Uuid) → k ≢ id → l.at v.transactions k ≡ l.at w.transactions k

  module _ (id merchant_id : Uuid) (call : Transaction → String → Call)
      (before : TransactionStatus) where
    -- The transaction was the merchant's, in the status before and with a reference, and `c` is
    -- the request about it.
    pub record IsDue (w : Ledger x) (tx : Transaction) (c : Call) : Type 0 where
      pub is_row : IsRow x l id merchant_id w tx
      pub status : tx.status ≡ before
      pub reference : (ref : String) × (tx.gateway_ref ≡ some ref) × (c ≡ call tx ref)

    -- The request was sent, and the row has the status after.
    pub record IsSettled (after : TransactionStatus) (w v : Ledger x) : Type 0 where
      pub old : Transaction
      pub new : Transaction
      pub request : Call
      pub due : IsDue w old request
      pub calls : v.calls ≡ request ∷ w.calls
      pub refunds : v.refunds ≡ w.refunds
      pub updated : IsUpdated id new w v
      pub status : new.status ≡ after

    -- Nothing has happened, or the request was sent and its outcome was not recorded.
    abbrev pub IsUnsettled : Ledger x → Ledger x → Type 0
    IsUnsettled w v =
        IsQuiet x l w v ⊎ ((tx : Transaction) × (c : Call) × IsDue w tx c × IsSent c w v)
