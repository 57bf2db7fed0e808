-- ===== src/Payment/Settle/Requests.antt =====
-- `Capture` and `Void` as a whole: every way in which they end.
use card_payment_service.Prelude.{refl, inl}
use card_payment_service.Domain.{TransactionStatus}
use card_payment_service.Effect.Triple.{Ends}
use card_payment_service.External.Table.{TableLaws}
use card_payment_service.Gateway.{Gateway}
use card_payment_service.World.{Externals, World}
use card_payment_service.Repository.{transaction_columns}
use card_payment_service.Payment.Types.{CaptureInput, VoidInput}
use card_payment_service.Payment.Service.{capture, void}
use card_payment_service.Payment.Guards.{ledger, IsQuiet}
use card_payment_service.Payment.Settle.Capture.{
  CaptureSettled, CaptureUnsettled, capture_locked-triple, VoidSettled, VoidUnsettled,
  void_locked-triple,
}
use card_payment_service.Payment.Settle.Locked.{with_lock-triple}

module _ (x : Externals) (l : TableLaws x.transactions transaction_columns)
    (g : Gateway x.Outside) where
  IsQuiet-start : (w : World x) → IsQuiet x l (ledger w) (ledger w)
  IsQuiet-start w = record { row = λ k. refl; calls = refl; refunds = refl }

  -- How `Capture` ends, whatever the gateway, Redis and the database answer. With a value and no
  -- error: the row was the merchant's, authorized and with a reference, one capture request for
  -- that reference was sent, the row is captured and still about the same charge, no other row and
  -- no refund changed, and the output has the row's id and status. With a value and an error: the
  -- same, but the row is failed. With an error alone or a panic: no row changed, and at most that
  -- one request was sent.
  pub capture_settles :
      (input : CaptureInput) (w : World x)
      → let (r, w') = capture x g input w in
        Ends
          (λ a v. CaptureSettled x l g (ledger w) input TransactionStatus.captured a (ledger v))
          (λ a v. CaptureSettled x l g (ledger w) input TransactionStatus.failed a (ledger v))
          (λ v. CaptureUnsettled x l g (ledger w) input (ledger v))
          (λ v. CaptureUnsettled x l g (ledger w) input (ledger v))
          r
          w'
  unfolding capture
  capture_settles input w =
      (with_lock-triple x g (CaptureSettled x l g (ledger w) input TransactionStatus.captured)
          (CaptureSettled x l g (ledger w) input TransactionStatus.failed)
          (CaptureUnsettled x l g (ledger w) input) (CaptureUnsettled x l g (ledger w) input)
          (IsQuiet x l (ledger w)) input.transaction_id (λ s q. inl q)
          (capture_locked-triple x l g (ledger w) input)).at
        w (IsQuiet-start w)

  -- How `Void` ends, whatever the gateway, Redis and the database answer. With a value and no
  -- error: the row was the merchant's, authorized and with a reference, one void request for that
  -- reference was sent, the row is voided and still about the same charge, no other row and no
  -- refund changed, and the output has the row's id and status. With a value and an error: the
  -- same, but the row is failed. With an error alone or a panic: no row changed, and at most that
  -- one request was sent.
  pub void_settles :
      (input : VoidInput) (w : World x)
      → let (r, w') = void x g input w in
        Ends
          (λ a v. VoidSettled x l g (ledger w) input TransactionStatus.voided a (ledger v))
          (λ a v. VoidSettled x l g (ledger w) input TransactionStatus.failed a (ledger v))
          (λ v. VoidUnsettled x l g (ledger w) input (ledger v))
          (λ v. VoidUnsettled x l g (ledger w) input (ledger v))
          r
          w'
  unfolding void
  void_settles input w =
      (with_lock-triple x g (VoidSettled x l g (ledger w) input TransactionStatus.voided)
          (VoidSettled x l g (ledger w) input TransactionStatus.failed)
          (VoidUnsettled x l g (ledger w) input) (VoidUnsettled x l g (ledger w) input)
          (IsQuiet x l (ledger w)) input.transaction_id (λ s q. inl q)
          (void_locked-triple x l g (ledger w) input)).at
        w (IsQuiet-start w)
