-- ===== src/Payment/Settle/Refund/Requests.antt =====
-- `Refund` as a whole: every way in which it ends, and that a refund is final.
use card_payment_service.Prelude.{◌⊎◌, refl, Option, none, some, inl, inr}
use card_payment_service.Effect.Triple.{
  Ends, Triple, Triple-pure, Triple-bind, Triple-before, Triple-after,
}
use card_payment_service.External.Table.{TableLaws}
use card_payment_service.Gateway.{Gateway}
use card_payment_service.World.{Externals, World}
use card_payment_service.Repository.{transaction_columns, refund_columns, idempotency_key_columns}
use card_payment_service.Payment.Types.{RefundInput, RefundOutput, decode_refund}
use card_payment_service.Payment.Service.{refund, refund_or_replay}
use card_payment_service.Payment.Replay.{IsReplay, IsAnswer, cached_idempotency-triple}
use card_payment_service.Payment.Guards.{Ledger, ledger, IsQuiet}
use card_payment_service.Payment.Settle.Locked.{with_lock-triple}
use card_payment_service.Payment.Settle.Refund.{IsRefunded, IsUnrefunded}
use card_payment_service.Payment.Settle.Refund.Locked.{refund_locked-triple}

module _ (x : Externals) (l : TableLaws x.transactions transaction_columns)
    (lr : TableLaws x.refunds refund_columns)
    (li : TableLaws x.idempotency_keys idempotency_key_columns) (g : Gateway x.Outside)
    (input : RefundInput) (w : World x) where
  abbrev Done : RefundOutput → Ledger x → Type 0
  Done out v = IsRefunded x l lr input.transaction_id input.merchant_id out (ledger w) v

  abbrev pub Undone : Ledger x → Type 0
  Undone v = IsUnrefunded x l lr input.transaction_id input.merchant_id (ledger w) v

  -- The output was stored under the key of the request, or the transaction was refunded.
  abbrev pub RefundAnswer : RefundOutput → Ledger x → Type 0
  RefundAnswer out v =
      (IsReplay x li input.idempotency_key input.merchant_id w.idempotency_keys (decode_refund x)
          out
        × IsQuiet x l (ledger w) v)
      ⊎ Done out v

  abbrev Answer : Option RefundOutput → Type 0
  Answer o =
      IsAnswer x li input.idempotency_key input.merchant_id w.idempotency_keys (decode_refund x) o

  refund_or_replay-triple :
      (cached : Option RefundOutput)
      → Triple
          (λ v. IsQuiet x l (ledger w) (ledger v) × Answer cached)
          (refund_or_replay x g input cached)
          (λ out v. RefundAnswer out (ledger v))
          (λ out v. Undone (ledger v))
          (λ v. Undone (ledger v))
          (λ v. Undone (ledger v))
  unfolding refund_or_replay
  refund_or_replay-triple (some out) = Triple-pure out (λ v h. inl (h.1, h.0))
  refund_or_replay-triple none =
      Triple-before (λ v h. h.0)
        (with_lock-triple x g RefundAnswer (λ _. Undone) Undone Undone (IsQuiet x l (ledger w))
          input.transaction_id (λ s q. inl q)
          (Triple-after (refund_locked-triple x l lr g (ledger w) input) (λ out v h. inr h)
            (λ out v h. h) (λ v h. h) (λ v h. h)))

  -- How `Refund` ends, whatever the gateway, Redis and the database answer. With a value and no
  -- error: either the value is the response that the merchant's live row of the idempotency key
  -- decodes to, and no transaction, no refund and no request was touched; or the merchant's row was
  -- captured and had a reference, one refund request for that reference and the row's whole amount
  -- was sent, the row is refunded and no other row changed, and one refund of that amount, in
  -- processing and under the id in the value, was added where no refund was. With an error or a
  -- panic: nothing was written and nothing sent; or the request was sent and nothing was written;
  -- or the row is refunded and no refund was added.
  pub refund_settles :
      let (r, w') = refund x g input w in
      Ends
        (λ out v. RefundAnswer out (ledger v))
        (λ _ v. Undone (ledger v))
        (λ v. Undone (ledger v))
        (λ v. Undone (ledger v))
        r
        w'
  unfolding refund
  refund_settles =
      (Triple-bind
          (Triple-after
            (cached_idempotency-triple x li input.idempotency_key input.merchant_id
              w.idempotency_keys (IsQuiet x l (ledger w)) (decode_refund x))
            (λ o v h. h) (λ o v h. h) (λ v h. h) (λ v e. absurd e))
          refund_or_replay-triple).at
        w (record { row = λ k. refl; calls = refl; refunds = refl }, refl)
