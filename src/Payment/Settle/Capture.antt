-- ===== src/Payment/Settle/Capture.antt =====
-- `Capture` and `Void` under the lock: the request that was sent, and the row afterwards.
use card_payment_service.Prelude.{String, ◌≡◌, refl, ◌∙◌, Option, none, inl, inr, false}
use card_payment_service.Domain.{
  Uuid, Time, Transaction, TransactionStatus, is_failed, is_authorized, is_voided,
}
use card_payment_service.Effect.{deref, ◌>>=◌}
use card_payment_service.Effect.Triple.{
  Triple, Triple-raise_if, Triple-bind, Triple-before, Triple-after, Triple-assume,
}
use card_payment_service.External.Table.{TableLaws}
use card_payment_service.Gateway.{Gateway}
use card_payment_service.World.{Externals, World, Call}
use card_payment_service.Repository.{transaction_columns, update_transaction}
use card_payment_service.Payment.Types.{CaptureInput, CaptureOutput, VoidInput, VoidOutput}
use card_payment_service.Payment.Calls.{GatewayOutcome}
use card_payment_service.Payment.Service.{capture_locked, void_locked, outcome_changes, finish}
use card_payment_service.Payment.Guards.{
  Ledger, ledger, IsQuiet, IsAuthorized, get_tx_authorized-triple,
}
use card_payment_service.Payment.Settle.{IsSent, IsDue, IsSettled, IsUnsettled}
use card_payment_service.Payment.Settle.Steps.{
  Sent, Changed, update_transaction-triple, deref-Changed, finish_ok, finish_failed,
}
use card_payment_service.Payment.Settle.Asked.{
  capture_call, void_call, Outcome, call_gateway_capture-triple, call_gateway_void-triple,
  capture_time-triple,
}

module _ (x : Externals) (l : TableLaws x.transactions transaction_columns) (g : Gateway x.Outside)
    (w : Ledger x) where
  module _ (id merchant_id : Uuid) (call : Transaction → String → Call) where
    abbrev pub Settled :
        TransactionStatus → TransactionStatus → Uuid → TransactionStatus → Ledger x → Type 0
    Settled before after out_id out_status v =
        IsSettled x l id merchant_id call before after w v × (out_id ≡ id) × (out_status ≡ after)

    abbrev pub Unsettled : TransactionStatus → Ledger x → Type 0
    Unsettled before v = IsUnsettled x l id merchant_id call before w v

    unsettled :
        (tx : Transaction) (c : Call)
        → IsDue x l id merchant_id call TransactionStatus.authorized w tx c
        → (v : World x) → Sent x l w c v
        → Unsettled TransactionStatus.authorized (ledger v)
    unsettled tx c due v s = inr (tx, c, due, s)

    settled :
        (tx new : Transaction) (c : Call) (status : TransactionStatus)
        → IsDue x l id merchant_id call TransactionStatus.authorized w tx c
        → (v : World x) → Changed x l w c id status new v
        → IsSettled x l id merchant_id call TransactionStatus.authorized status w (ledger v)
    settled tx new c status due v (updated, same, calls, refunds) = record {
      old = tx;
      new = new;
      request = c;
      due = due;
      calls = calls;
      refunds = refunds;
      updated = updated;
      status = same;
    }

    -- From an answer on, for a transaction that is due.
    settles :
        {A : Type 0} (target : TransactionStatus) (tx : Transaction) (c : Call) (out_id : A → Uuid)
        (out_status : A → TransactionStatus) (make : Uuid → TransactionStatus → A)
        → ((i : Uuid) (s : TransactionStatus)
            → (out_id (make i s) ≡ i) × (out_status (make i s) ≡ s))
        → is_failed target ≡ false
        → IsDue x l id merchant_id call TransactionStatus.authorized w tx c
        → (i : Uuid) → i ≡ id
        → (o : GatewayOutcome) (at : Option Time) → Outcome x l g w target o
        → Triple
            (Sent x l w c)
            (do
              updated ← update_transaction x i is_authorized (outcome_changes o at)
              row ← deref updated
              finish x g o.status (make row.id row.status))
            (λ a v.
              Settled TransactionStatus.authorized target (out_id a) (out_status a) (ledger v))
            (λ a v.
              Settled TransactionStatus.authorized TransactionStatus.failed
                (out_id a)
                (out_status a)
                (ledger v))
            (λ v. Unsettled TransactionStatus.authorized (ledger v))
            (λ v. Unsettled TransactionStatus.authorized (ledger v))
    settles target tx c out_id out_status make made alive due i i_eq o at outcome = rw i_eq (
        Triple-bind
          (Triple-after
            (update_transaction-triple x l w c id is_authorized (outcome_changes o at) tx
              due.is_row.stored due.is_row.same_id (rw due.status))
            (λ a v h. h) (λ a. unsettled tx c due) (unsettled tx c due) (unsettled tx c due))
          λ updated. Triple-bind (deref-Changed x l w c id o.status updated) λ row. elim outcome [
            | inl good ↦ finish_ok x g o.status _ (rw good alive) (λ v h. (
              settled tx row c target due v (h.0, h.1 ∙ good, h.2, h.3),
              (made row.id row.status).0 ∙ h.0.same_id,
              (made row.id row.status).1 ∙ h.1 ∙ good,
            ))
            | inr bad ↦ finish_failed x g o.status _ (rw bad) (λ v h. (
              settled tx row c TransactionStatus.failed due v (h.0, h.1 ∙ bad, h.2, h.3),
              (made row.id row.status).0 ∙ h.0.same_id,
              (made row.id row.status).1 ∙ h.1 ∙ bad,
            ))
          ])

  IsDue-of :
      (id merchant_id : Uuid) (call : Transaction → String → Call) (tx : Transaction) (v : World x)
      (a : IsAuthorized x l id merchant_id w tx v)
      → IsDue x l id merchant_id call TransactionStatus.authorized w tx (call tx a.referenced.0)
  IsDue-of id merchant_id call tx v a = record {
    is_row = a.is_row;
    status = a.authorized;
    reference = (a.referenced.0, a.referenced.1, refl);
  }

  module _ (input : CaptureInput) where
    abbrev pub CaptureSettled : TransactionStatus → CaptureOutput → Ledger x → Type 0
    CaptureSettled after out =
        Settled input.transaction_id input.merchant_id (capture_call x) TransactionStatus.authorized
          after out.transaction_id out.status

    abbrev pub CaptureUnsettled : Ledger x → Type 0
    CaptureUnsettled =
        Unsettled input.transaction_id input.merchant_id (capture_call x)
          TransactionStatus.authorized

    pub capture_locked-triple :
        Triple
          (λ v. IsQuiet x l w (ledger v))
          (capture_locked x g input)
          (λ a v. CaptureSettled TransactionStatus.captured a (ledger v))
          (λ a v. CaptureSettled TransactionStatus.failed a (ledger v))
          (λ v. CaptureUnsettled (ledger v))
          (λ v. CaptureUnsettled (ledger v))
    unfolding capture_locked
    capture_locked-triple =
        let id = input.transaction_id in
        let m = input.merchant_id in
        Triple-bind
          (Triple-after (get_tx_authorized-triple x l id m w) (λ a v h. h) (λ a v q. inl q)
            (λ v q. inl q) (λ v e. absurd e))
          λ tx. Triple-assume λ v a.
            let ref = a.referenced.0 in
            let due = IsDue-of id m (capture_call x) tx v a in
            let to = unsettled id m (capture_call x) tx (capture_call x tx ref) due in
            Triple-before (λ u b. b.quiet)
              (Triple-bind
                (Triple-after (call_gateway_capture-triple x l g w tx ref a.referenced.1)
                  (λ o v h. h) (λ o. to) to to)
                λ o. Triple-assume λ u h.
                  Triple-before (λ t h. h.0)
                    (Triple-bind
                      (capture_time-triple x l g w (IsSent x l (capture_call x tx ref) w) o.status)
                      λ at.
                        settles id m (capture_call x) TransactionStatus.captured tx
                          (capture_call x tx ref) (λ (a : CaptureOutput). a.transaction_id)
                          (λ (a : CaptureOutput). a.status)
                          (λ i s. record { transaction_id = i; status = s }) (λ i s. (refl, refl))
                          refl due tx.id a.is_row.same_id o at h.1))

  module _ (input : VoidInput) where
    abbrev pub VoidSettled : TransactionStatus → VoidOutput → Ledger x → Type 0
    VoidSettled after out =
        Settled input.transaction_id input.merchant_id (void_call x) TransactionStatus.authorized
          after out.transaction_id out.status

    abbrev pub VoidUnsettled : Ledger x → Type 0
    VoidUnsettled =
        Unsettled input.transaction_id input.merchant_id (void_call x) TransactionStatus.authorized

    pub void_locked-triple :
        Triple
          (λ v. IsQuiet x l w (ledger v))
          (void_locked x g input)
          (λ a v. VoidSettled TransactionStatus.voided a (ledger v))
          (λ a v. VoidSettled TransactionStatus.failed a (ledger v))
          (λ v. VoidUnsettled (ledger v))
          (λ v. VoidUnsettled (ledger v))
    unfolding void_locked
    void_locked-triple =
        let id = input.transaction_id in
        let m = input.merchant_id in
        Triple-bind
          (Triple-after (get_tx_authorized-triple x l id m w) (λ a v h. h) (λ a v q. inl q)
            (λ v q. inl q) (λ v e. absurd e))
          λ tx. Triple-assume λ v a.
            let ref = a.referenced.0 in
            let due = IsDue-of id m (void_call x) tx v a in
            let to = unsettled id m (void_call x) tx (void_call x tx ref) due in
            Triple-before (λ u b. b.quiet)
              (Triple-bind (Triple-raise_if (is_voided tx.status) _ (λ _ v q. inl q)) λ _.
                Triple-before (λ v q. q.0)
                  (Triple-bind
                    (Triple-after (call_gateway_void-triple x l g w tx ref a.referenced.1)
                      (λ o v h. h) (λ o. to) to to)
                    λ o. Triple-assume λ u h.
                      Triple-before (λ t h. h.0)
                        (settles id m (void_call x) TransactionStatus.voided tx (void_call x tx ref)
                          (λ (a : VoidOutput). a.transaction_id) (λ (a : VoidOutput). a.status)
                          (λ i s. record { transaction_id = i; status = s }) (λ i s. (refl, refl))
                          refl due tx.id a.is_row.same_id o none h.1)))
