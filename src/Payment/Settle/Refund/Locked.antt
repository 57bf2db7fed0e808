-- ===== src/Payment/Settle/Refund/Locked.antt =====
-- `Refund` under the lock.
use card_payment_service.Prelude.{String, Option, none, inl}
use card_payment_service.Domain.{Uuid, Transaction, TransactionStatus, Refund, RefundStatus}
use card_payment_service.Effect.Triple.{
  Triple, Triple-pure, Triple-raise_if, Triple-bind, Triple-before, Triple-after, Triple-assume,
}
use card_payment_service.External.Table.{TableLaws}
use card_payment_service.Gateway.{Gateway}
use card_payment_service.World.{Externals, Call}
use card_payment_service.Repository.{transaction_columns, refund_columns}
use card_payment_service.Payment.Types.{RefundInput}
use card_payment_service.Payment.Service.{refund_locked}
use card_payment_service.Payment.Guards.{
  Ledger, ledger, IsQuiet, find_transaction-triple, deref-IsFound,
}
use card_payment_service.Payment.Settle.{IsSent, IsDue}
use card_payment_service.Payment.Settle.Steps.{take_outside-triple}
use card_payment_service.Payment.Settle.Refund.{refund_call, IsRefunded, IsUnrefunded}
use card_payment_service.Payment.Settle.Refund.Steps.{
  is_captured_eq, Written, call_gateway_refund-triple, create_refund_and_update_tx-triple,
  spawn-triple,
}

module _ (x : Externals) (l : TableLaws x.transactions transaction_columns)
    (lr : TableLaws x.refunds refund_columns) (g : Gateway x.Outside) (w : Ledger x)
    (input : RefundInput) where
  -- the row of the refunds that the code builds
  abbrev built : Transaction → Option String → Uuid → Refund
  built tx refund_ref id = record {
    id = id;
    transaction_id = tx.id;
    merchant_id = input.merchant_id;
    refund_ref = refund_ref;
    amount = tx.amount;
    status = RefundStatus.processing;
    failed_reason = none;
    created_at = 0;
    updated_at = 0;
  }

  Written-IsRefunded :
      (tx : Transaction) (refund_ref : Option String) (new : Uuid) (v : Ledger x)
      → Written x l lr g w input.transaction_id input.merchant_id tx (built tx refund_ref new) v
      → IsRefunded x l lr input.transaction_id input.merchant_id
          (record { refund_id = new; status = RefundStatus.processing })
          w
          v
  Written-IsRefunded tx refund_ref new v (r, time, same, moved, added) = record {
    old = tx;
    moved = moved;
    refund = r;
    added = added;
    refund_id = rw same;
    transaction = rw same;
    merchant = rw same;
    amount = rw same;
    status = (rw same, rw same);
  }

  pub refund_locked-triple :
      Triple
        (λ v. IsQuiet x l w (ledger v))
        (refund_locked x g input)
        (λ out v. IsRefunded x l lr input.transaction_id input.merchant_id out w (ledger v))
        (λ _ v. IsUnrefunded x l lr input.transaction_id input.merchant_id w (ledger v))
        (λ v. IsUnrefunded x l lr input.transaction_id input.merchant_id w (ledger v))
        (λ v. IsUnrefunded x l lr input.transaction_id input.merchant_id w (ledger v))
  unfolding refund_locked
  refund_locked-triple =
      let id = input.transaction_id in
      let m = input.merchant_id in
      Triple-bind
        (Triple-after (find_transaction-triple x l id m w) (λ a v h. h) (λ a v q. inl q)
          (λ v q. inl q) (λ v e. absurd e))
        λ found.
          Triple-bind
            (Triple-after (deref-IsFound x l id m w found) (λ a v h. h) (λ a v q. inl q)
              (λ v q. inl q) (λ v e. absurd e))
            λ tx. Triple-bind (Triple-raise_if _ _ (λ _ v h. inl h.1)) λ _.
              Triple-bind (Triple-raise_if _ _ (λ _ v h. inl h.0.1)) λ _. Triple-assume λ v h.
                let status = is_captured_eq x l lr g w id m tx.status h.1 in
                Triple-before {P' = λ v. IsQuiet x l w (ledger v)} (λ u k. k.0.0.1)
                  (Triple-bind (call_gateway_refund-triple x l lr g w id m tx h.0.0.0 status) λ ref.
                    Triple-bind
                      (take_outside-triple x l w
                        (λ v.
                          (c : Call) × IsDue x l id m refund_call TransactionStatus.captured w tx c
                          × IsSent x l c w v)
                        x.new_uuid)
                      λ new.
                        Triple-bind
                          (create_refund_and_update_tx-triple x l lr g w id m tx _ h.0.0.0.same_id)
                          λ _.
                            Triple-bind
                              (spawn-triple x l lr g w id m
                                (Written x l lr g w id m tx (built tx ref new)) _)
                              λ _. Triple-pure _ (λ v. Written-IsRefunded tx ref new (ledger v)))
