-- ===== src/Payment/Settle/Refund/Final.antt =====
-- A refunded transaction is never refunded again.
use card_payment_service.Prelude.{
  ◌≡◌, refl, sym, subst, ◌∙◌, Option, none, some, List, inl, inr, arith,
}
use card_payment_service.Domain.{Uuid, Transaction, TransactionStatus}
use card_payment_service.Effect.{Result, ok, err, both, panic}
use card_payment_service.Effect.Triple.{Ends}
use card_payment_service.External.Table.{TableLaws}
use card_payment_service.Gateway.{Gateway}
use card_payment_service.World.{Externals, World, Call}
use card_payment_service.Repository.{transaction_columns, refund_columns, idempotency_key_columns}
use card_payment_service.Payment.Types.{RefundInput, RefundOutput}
use card_payment_service.Payment.Service.{refund}
use card_payment_service.Payment.History.{Event, run}
use card_payment_service.Payment.Guards.{Ledger, ledger, IsQuiet}
use card_payment_service.Payment.Lifecycle.{Step, Reach, Evolves}
use card_payment_service.Payment.Lifecycle.Requests.{run_lifecycle}
use card_payment_service.Payment.Settle.{IsDue}
use card_payment_service.Payment.Settle.Refund.{refund_call}
use card_payment_service.Payment.Settle.Refund.Requests.{RefundAnswer, Undone, refund_settles}

-- Nothing comes after a refund.
pub refunded-Reach :
    {s t : TransactionStatus}
    → Reach s t
    → s ≡ TransactionStatus.refunded
    → t ≡ TransactionStatus.refunded
refunded-Reach Reach.here e = e
refunded-Reach (Reach.next r Step.hold) e = cc (refunded-Reach r e)
refunded-Reach (Reach.next r Step.charge) e = cc (refunded-Reach r e)
refunded-Reach (Reach.next r Step.reject) e = cc (refunded-Reach r e)
refunded-Reach (Reach.next r Step.capture) e = cc (refunded-Reach r e)
refunded-Reach (Reach.next r Step.void) e = cc (refunded-Reach r e)
refunded-Reach (Reach.next r Step.fail) e = cc (refunded-Reach r e)
refunded-Reach (Reach.next r Step.refund) e = refl

module _ (x : Externals) (l : TableLaws x.transactions transaction_columns) where
  -- The row under an id is there, and refunded.
  abbrev pub IsReturned : Uuid → x.transactions.State → Type 0
  IsReturned id s =
      (t : Transaction) × (l.at s id ≡ some t) × (t.status ≡ TransactionStatus.refunded)

  IsReturned-later :
      (t : Transaction) (o : Option Transaction) (id : Uuid) (s : x.transactions.State)
      → t.status ≡ TransactionStatus.refunded
      → l.at s id ≡ o
      → Evolves (some t) o
      → IsReturned id s
  IsReturned-later t none id s e at h = absurd h
  IsReturned-later t (some u) id s e at h = (u, at, refunded-Reach h.1 e)

  not_due :
      (id merchant_id : Uuid) (w : Ledger x) (tx : Transaction) (c : Call)
      → IsReturned id w.transactions
      → IsDue x l id merchant_id refund_call TransactionStatus.captured w tx c
      → ⊥
  not_due id merchant_id w tx c (t, at, e) due =
      let same : t ≡ tx = ground (arith, at, due.is_row.stored) in
      let two : TransactionStatus.refunded ≡ TransactionStatus.captured =
        sym e ∙ subst (λ u. u.status ≡ TransactionStatus.captured) (sym same) due.status in
      cc

module _ (x : Externals) (l : TableLaws x.transactions transaction_columns)
    (lr : TableLaws x.refunds refund_columns)
    (li : TableLaws x.idempotency_keys idempotency_key_columns) (g : Gateway x.Outside) where
  IsQuiet-Undone :
      (input : RefundInput) (w v : World x)
      → IsReturned x l input.transaction_id w.transactions
      → Undone x l lr li g input w (ledger v)
      → IsQuiet x l (ledger w) (ledger v)
  IsQuiet-Undone input w v d (inl q) = q
  IsQuiet-Undone input w v d (inr (inl (tx, c, due, sent))) =
      absurd (not_due x l _ _ (ledger w) tx c d due)
  IsQuiet-Undone input w v d (inr (inr (tx, moved, same))) =
      absurd (not_due x l _ _ (ledger w) tx moved.request d moved.due)

  IsQuiet-answer :
      (input : RefundInput) (w : World x) (out : RefundOutput) (v : World x)
      → IsReturned x l input.transaction_id w.transactions
      → RefundAnswer x l lr li g input w out (ledger v)
      → IsQuiet x l (ledger w) (ledger v)
  IsQuiet-answer input w out v d (inl h) = h.1
  IsQuiet-answer input w out v d (inr h) =
      absurd (not_due x l _ _ (ledger w) h.old h.moved.request d h.moved.due)

  IsQuiet-Ends :
      (input : RefundInput) (w : World x) (r : Result RefundOutput) (v : World x)
      → IsReturned x l input.transaction_id w.transactions
      → Ends
          (λ out v. RefundAnswer x l lr li g input w out (ledger v))
          (λ _ v. Undone x l lr li g input w (ledger v))
          (λ v. Undone x l lr li g input w (ledger v))
          (λ v. Undone x l lr li g input w (ledger v))
          r
          v
      → IsQuiet x l (ledger w) (ledger v)
  IsQuiet-Ends input w (ok out) v d h = IsQuiet-answer input w out v d h
  IsQuiet-Ends input w (err e) v d h = IsQuiet-Undone input w v d h
  IsQuiet-Ends input w (both out e) v d h = IsQuiet-Undone input w v d h
  IsQuiet-Ends input w (panic p) v d h = IsQuiet-Undone input w v d h

  -- Once a transaction is refunded, and after any history of requests and background saves, a
  -- further `Refund` of it sends nothing to the gateway, and changes no transaction and no refund.
  pub refund_final :
      (input : RefundInput) (w : World x) (tx : Transaction)
      → l.at w.transactions input.transaction_id ≡ some tx
      → tx.status ≡ TransactionStatus.refunded
      → (es : List Event)
      → let v = run x g es w in IsQuiet x l (ledger v) (ledger (refund x g input v).1)
  refund_final input w tx stored status es =
      let v = run x g es w in
      let id = input.transaction_id in
      IsQuiet-Ends input v _ _
        (IsReturned-later x l tx _ id v.transactions status refl
          (subst (λ o. Evolves o (l.at v.transactions id)) stored (run_lifecycle x l g es w id)))
        (refund_settles x l lr li g input v)
