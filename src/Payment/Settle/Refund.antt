-- ===== src/Payment/Settle/Refund.antt =====
-- `Refund`: what it has done to the ledger when it ends.
pub mod Steps
pub mod Locked
pub mod Requests
pub mod Final
use card_payment_service.Prelude.{
  String, ◌≡◌, ◌⊎◌, refl, sym, subst, ap, ◌∙◌, Option, none, some, List, ◌∷◌, inl, inr, true, false,
  not, ◌==◌, ◌||◌, if◌then◌else◌, arith,
}
use card_payment_service.Domain.{
  Uuid, Time, Transaction, TransactionStatus, Refund, RefundStatus, is_captured,
}
use card_payment_service.Effect.{M, pure, deref, ◌>>=◌}
use card_payment_service.Effect.Triple.{
  Ends, Triple, Triple-pure, Triple-raise, Triple-deref, Triple-raise_if, Triple-catch, Triple-bind,
  Triple-before, Triple-after, Triple-assume,
}
use card_payment_service.External.Table.{TableLaws, Reply, Created}
use card_payment_service.Gateway.{Gateway, RefundResponse}
use card_payment_service.World.{Externals, World, Call, on_refunds, result_of, spawn, SaveJob}
use card_payment_service.Repository.{
  transaction_columns, refund_columns, find_transaction, update_transaction, create_refund,
}
use card_payment_service.Payment.Types.{RefundInput, RefundOutput}
use card_payment_service.Payment.Calls.{call_gateway_refund, refund_ref_of}
use card_payment_service.Payment.Transactions.{create_refund_and_update_tx, set_status}
use card_payment_service.Payment.Service.{refund_locked}
use card_payment_service.Payment.Guards.{
  Ledger, ledger, IsQuiet, IsRow, Never, find_transaction-triple, deref-IsFound,
}
use card_payment_service.Payment.Settle.{IsSent, IsUpdated, IsDue}
use card_payment_service.Payment.Settle.Steps.{
  Sent, Changed, ChangedRow, send-triple, update_transaction-triple, take_outside-triple,
}

abbrev pub refund_call : Transaction → String → Call
refund_call tx ref = Call.refund (record { gateway_ref = ref; amount = tx.amount })

module _ (x : Externals) (l : TableLaws x.transactions transaction_columns)
    (lr : TableLaws x.refunds refund_columns) where
  -- One refund has been added under an id that was free.
  pub record IsAdded (r : Refund) (w v : Ledger x) : Type 0 where
    pub fresh : lr.at w.refunds r.id ≡ none
    pub stored : lr.at v.refunds r.id ≡ some r
    pub others : (k : Uuid) → (r.id == k) ≡ false → lr.at v.refunds k ≡ lr.at w.refunds k

  module _ (id merchant_id : Uuid) where
    -- The merchant's captured transaction was refunded with one request for its whole amount, and
    -- its row says so.
    pub record IsMoved (tx : Transaction) (w v : Ledger x) : Type 0 where
      pub new : Transaction
      pub request : Call
      pub due : IsDue x l id merchant_id refund_call TransactionStatus.captured w tx request
      pub calls : v.calls ≡ request ∷ w.calls
      pub updated : IsUpdated x l id new w v
      pub status : new.status ≡ TransactionStatus.refunded

    -- The refund is written: of the whole amount, in processing.
    pub record IsRefunded (out : RefundOutput) (w v : Ledger x) : Type 0 where
      pub old : Transaction
      pub moved : IsMoved old w v
      pub refund : Refund
      pub added : IsAdded refund w v
      pub refund_id : refund.id ≡ out.refund_id
      pub transaction : refund.transaction_id ≡ old.id
      pub merchant : refund.merchant_id ≡ merchant_id
      pub amount : refund.amount ≡ old.amount
      pub status : (refund.status ≡ RefundStatus.processing) × (out.status ≡ refund.status)

    -- Nothing has happened; or the request was sent, and neither the row nor the refund was
    -- written; or the row was written, and the refund was not.
    abbrev pub IsUnrefunded : Ledger x → Ledger x → Type 0
    IsUnrefunded w v =
        IsQuiet x l w v
        ⊎ (((tx : Transaction) × (c : Call) × IsDue x l id merchant_id refund_call
                TransactionStatus.captured w tx c
              × IsSent x l c w v)
            ⊎ ((tx : Transaction) × IsMoved tx w v
                × ((k : Uuid) → lr.at v.refunds k ≡ lr.at w.refunds k)))
