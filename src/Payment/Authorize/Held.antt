-- ===== src/Payment/Authorize/Held.antt =====
-- `Authorize` from the row that it saves on: the hold, the update, and the answer.
use card_payment_service.Prelude.{
  ◌≡◌, ◌≢◌, ◌⊎◌, refl, sym, subst, ap, ◌∙◌, Option, none, some, Bool, true, false, ◌∷◌, inl, inr,
  if◌then◌else◌,
}
use card_payment_service.Domain.{Uuid, Transaction, TransactionStatus, is_failed, is_pending}
use card_payment_service.Effect.{◌>>=◌, deref}
use card_payment_service.Effect.Triple.{
  Triple, Triple-pure, Triple-catch, Triple-bind, Triple-before, Triple-after, Triple-assume,
}
use card_payment_service.External.Table.{TableLaws}
use card_payment_service.Gateway.{Gateway, AuthorizeResponse}
use card_payment_service.World.{Externals, World, Call, SaveJob, spawn, TransactionChanges}
use card_payment_service.Repository.{transaction_columns, update_transaction}
use card_payment_service.Payment.Types.{ChargeInput, ChargeOutput, encode_charge}
use card_payment_service.Payment.Calls.{GatewayOutcome, call_gateway_authorize, authorize_outcome}
use card_payment_service.Payment.Service.{charge_changes, finish}
use card_payment_service.Payment.Guards.{Ledger, ledger, IsQuiet}
use card_payment_service.Payment.Lifecycle.{SameCharge}
use card_payment_service.Payment.Settle.{IsUpdated}
use card_payment_service.Payment.Settle.Steps.{
  Sent, Changed, send-triple, update_transaction-triple, deref-Changed, finish_ok, finish_failed,
}
use card_payment_service.Payment.Authorize.{hold_call, card_call, IsHeldRow, HasHeld}
use card_payment_service.Payment.Authorize.Created.{NotHeld, Saved}

if_status :
    (b : Bool) (p q : TransactionChanges) {s : TransactionStatus}
    → p.status ≡ s
    → q.status ≡ s
    → (if b then p else q).status ≡ s
if_status true p q e f = e
if_status false p q e f = f

charge_changes-status : (o : GatewayOutcome) → (charge_changes o).status ≡ o.status
charge_changes-status o = if_status (is_failed o.status) _ _ refl refl

module _ (x : Externals) (l : TableLaws x.transactions transaction_columns) (g : Gateway x.Outside)
    (input : ChargeInput) (w : Ledger x) where
  module _ (t : Transaction) (u : World x) (saved : Saved x l input w t u) where
    abbrev hold : Call
    hold = hold_call x l input t

    -- Relative to the row that was saved, the hold was requested.
    abbrev HoldSent : World x → Type 0
    HoldSent v = Sent x l (ledger u) hold v

    not_held : (v : World x) → HoldSent v → NotHeld x l input w v
    not_held v s = inr (
        inr (
          t,
          record {
            fresh = saved.fresh;
            stored = s.row t.id ∙ saved.stored;
            about = saved.about;
            status_is = saved.status_is;
            others = λ k ne. s.row k ∙ saved.others k ne;
            calls = s.calls ∙ ap (λ cs. hold ∷ cs) saved.calls;
            refunds = s.refunds ∙ saved.refunds;
          },
        ))

    same_row :
        (row : Transaction) (v : World x)
        → IsUpdated x l t.id row (ledger u) (ledger v)
        → SameCharge t row
    same_row row v updated =
        let both : some updated.kept.0 ≡ some t = sym updated.kept.1 ∙ saved.stored in
        let old_t : updated.kept.0 ≡ t = cc in subst (λ o. SameCharge o row) old_t updated.kept.2

    hold_same : (row : Transaction) → SameCharge t row → hold ≡ hold_call x l input row
    hold_same row same = rw (same.amount, same.currency, same.id)

    held :
        (row : Transaction) (status : TransactionStatus) (v : World x)
        → Changed x l (ledger u) hold t.id status row v
        → IsHeldRow x l input status row w (ledger v)
    held row status v (updated, same, calls, refunds) =
        let kept = same_row row v updated in
        record {
          fresh = subst (λ k. l.at w.transactions k ≡ none) (sym kept.id) saved.fresh;
          stored = subst (λ k. l.at v.transactions k ≡ some row) (sym kept.id) updated.stored;
          about = record {
            merchant_id = kept.merchant_id ∙ saved.about.merchant_id;
            amount = kept.amount ∙ saved.about.amount;
            currency = kept.currency ∙ saved.about.currency;
            idempotency_key = kept.idempotency_key ∙ saved.about.idempotency_key;
            payment_type = kept.payment_type ∙ saved.about.payment_type;
          };
          status_is = same;
          others = λ k ne.
              let apart : k ≢ t.id = λ e. ne (e ∙ sym kept.id) in
              updated.others k apart ∙ saved.others k apart;
          calls =
              calls
              ∙ ap (λ cs. hold ∷ cs) saved.calls
              ∙ ap (λ c. c ∷ card_call input ∷ w.calls) (hold_same row kept);
          refunds = refunds ∙ saved.refunds;
        }

    -- The answer of the gateway, after the hold was requested.
    abbrev Answered : GatewayOutcome → World x → Type 0
    Answered o v =
        HoldSent v
        × ((o.status ≡ TransactionStatus.authorized) ⊎ (o.status ≡ TransactionStatus.failed))

    authorize_outcome-cases :
        (r : Option AuthorizeResponse)
        → ((authorize_outcome r).status ≡ TransactionStatus.authorized)
          ⊎ ((authorize_outcome r).status ≡ TransactionStatus.failed)
    authorize_outcome-cases none = inr refl
    authorize_outcome-cases (some resp) = inl refl

    call-triple :
        Triple
          (λ v. IsQuiet x l (ledger u) (ledger v))
          (call_gateway_authorize x g t)
          Answered
          (λ _. NotHeld x l input w)
          (NotHeld x l input w)
          (NotHeld x l input w)
    unfolding call_gateway_authorize
    call-triple =
        Triple-catch
          (Triple-after (send-triple x l (ledger u) hold _) (λ r v s. s) (λ r v s. s) (λ v s. s)
            not_held)
          (λ e. Triple-pure _ (λ v s. (s, inr refl)))
          (λ r. Triple-pure _ (λ v s. (s, authorize_outcome-cases r)))

    spawn-Changed :
        {E X : World x → Type 0} (status : TransactionStatus) (row : Transaction) (job : SaveJob)
        → Triple
            (Changed x l (ledger u) hold t.id status row)
            (spawn {x = x} job)
            (λ _. Changed x l (ledger u) hold t.id status row)
            (λ _. E)
            E
            X
    unfolding spawn
    spawn-Changed status row job = record { at = λ v p. p }

    -- From the saved row on.
    pub hold-triple :
        (key : Uuid)
        → Triple
            (λ v. IsQuiet x l (ledger u) (ledger v))
            (do
              o ← call_gateway_authorize x g t
              updated ← update_transaction x t.id is_pending (charge_changes o)
              row ← deref updated
              let out : ChargeOutput = record { transaction_id = row.id; status = row.status }
              _ ← spawn (record {
                key = key;
                merchant_id = input.merchant_id;
                response = encode_charge x out;
              })
              finish x g o.status out)
            (λ out v. HasHeld x l input TransactionStatus.authorized out w (ledger v))
            (λ out v. HasHeld x l input TransactionStatus.failed out w (ledger v))
            (NotHeld x l input w)
            (NotHeld x l input w)
    hold-triple key = Triple-bind call-triple λ o. Triple-assume λ v a.
        Triple-before {P' = HoldSent} (λ _ h. h.0)
          (Triple-bind
            (Triple-after
              (update_transaction-triple x l (ledger u) hold t.id is_pending (charge_changes o) t
                saved.stored refl (rw saved.status_is))
              (λ r v h. h) (λ r. not_held) not_held not_held)
            λ updated.
              Triple-bind (deref-Changed x l (ledger u) hold t.id (charge_changes o).status updated)
                λ row. Triple-bind (spawn-Changed (charge_changes o).status row _) λ _. elim a.1 [
                  | inl good ↦ finish_ok x g o.status _ (rw good) (λ v h.
                      let same = charge_changes-status o ∙ good in
                      (
                        row,
                        subst (λ s. IsHeldRow x l input s row w (ledger v)) same (held row _ v h),
                        refl,
                        h.1 ∙ same,
                      ))
                  | inr bad ↦ finish_failed x g o.status _ (rw bad) (λ v h.
                      let same = charge_changes-status o ∙ bad in
                      (
                        row,
                        subst (λ s. IsHeldRow x l input s row w (ledger v)) same (held row _ v h),
                        refl,
                        h.1 ∙ same,
                      ))
                ])
