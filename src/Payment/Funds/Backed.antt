-- ===== src/Payment/Funds/Backed.antt =====
-- The rows of refunds over a history.
use card_payment_service.Prelude.{
  ◌≡◌, ◌⊎◌, refl, sym, ap, subst, ◌∙◌, Option, none, some, true, List, [], ◌∷◌, inl, inr, ◌==◌,
  ==_iff, Bool-cases, arith,
}
use card_payment_service.Domain.{Uuid, Transaction, TransactionStatus, Refund}
use card_payment_service.Effect.{Result, ok, err, both, panic}
use card_payment_service.Effect.Triple.{Ends}
use card_payment_service.External.Table.{TableLaws}
use card_payment_service.Gateway.{Gateway}
use card_payment_service.World.{Externals, World}
use card_payment_service.Repository.{transaction_columns, refund_columns, idempotency_key_columns}
use card_payment_service.Payment.Types.{RefundInput, RefundOutput}
use card_payment_service.Payment.History.{Event, handle, run}
use card_payment_service.Payment.Guards.{Ledger, ledger}
use card_payment_service.Payment.Lifecycle.{Evolves}
use card_payment_service.Payment.Lifecycle.Requests.{run_lifecycle}
use card_payment_service.Payment.Settle.Refund.{IsRefunded}
use card_payment_service.Payment.Settle.Refund.Requests.{RefundAnswer, Undone, refund_settles}
use card_payment_service.Payment.Settle.Refund.Final.{refunded-Reach}
use card_payment_service.Payment.Funds.{IsBacked, IsSound}
use card_payment_service.Payment.Footprint.Operations.{
  authorize-same, charge-same, capture-same, void-same, save_idempotency-same,
}

module _ (x : Externals) (l : TableLaws x.transactions transaction_columns)
    (lr : TableLaws x.refunds refund_columns)
    (li : TableLaws x.idempotency_keys idempotency_key_columns) (g : Gateway x.Outside) where
  -- The refunds are the same, or one was added as `Refund` adds it.
  abbrev AddsOne : Ledger x → Ledger x → Type 0
  AddsOne w v =
      ((k : Uuid) → lr.at v.refunds k ≡ lr.at w.refunds k)
      ⊎ ((id : Uuid) × (merchant_id : Uuid) × (out : RefundOutput) × IsRefunded x l lr id
            merchant_id out w v)

  abbrev RowsEvolve : Ledger x → Ledger x → Type 0
  RowsEvolve w v = (k : Uuid) → Evolves (l.at w.transactions k) (l.at v.transactions k)

  IsBacked-row :
      (w v : Ledger x) (r : Refund) (b : IsBacked x l lr w r) (o : Option Transaction)
      → l.at v.transactions r.transaction_id ≡ o
      → Evolves (some b.transaction) o
      → IsBacked x l lr v r
  IsBacked-row w v r b none e h = absurd h
  IsBacked-row w v r b (some t) e h = record {
    transaction = t;
    stored = e;
    refunded = refunded-Reach h.1 b.refunded;
    amount = b.amount ∙ sym h.0.amount;
    owner = b.owner ∙ sym h.0.merchant_id;
  }

  -- A refund that is backed stays so.
  IsBacked-later :
      (w v : Ledger x) (r : Refund) → RowsEvolve w v → IsBacked x l lr w r → IsBacked x l lr v r
  IsBacked-later w v r evolve b = IsBacked-row w v r b _ refl (
      subst (λ o. Evolves o (l.at v.transactions r.transaction_id)) b.stored
        (evolve r.transaction_id))

  IsSound-same :
      (w v : Ledger x)
      → RowsEvolve w v
      → ((k : Uuid) → lr.at v.refunds k ≡ lr.at w.refunds k)
      → IsSound x l lr w
      → IsSound x l lr v
  IsSound-same w v evolve same s = record {
    backed = λ k r e. IsBacked-later w v r evolve (s.backed k r (sym (same k) ∙ e));
    single = λ j k r q a b. s.single j k r q (sym (same j) ∙ a) (sym (same k) ∙ b);
  }

  module _ (id merchant_id : Uuid) (out : RefundOutput) (w v : Ledger x)
      (done : IsRefunded x l lr id merchant_id out w v) where
    old_id : done.old.id ≡ id
    old_id = done.moved.due.is_row.same_id

    -- The refund that was added.
    new-IsBacked : IsBacked x l lr v done.refund
    new-IsBacked =
        let (before, at, kept) = done.moved.updated.kept in
        let same : before ≡ done.old = ground (arith, at, done.moved.due.is_row.stored) in
        record {
          transaction = done.moved.new;
          stored = rw (done.transaction ∙ old_id) done.moved.updated.stored;
          refunded = done.moved.status;
          amount =
              done.amount ∙ sym (subst (λ t. done.moved.new.amount ≡ t.amount) same kept.amount);
          owner =
              done.merchant
              ∙ sym (
                  subst (λ t. done.moved.new.merchant_id ≡ t.merchant_id) same kept.merchant_id
                  ∙ done.moved.due.is_row.owner);
        }

    -- No refund of that transaction was there before.
    first_refund :
        IsSound x l lr w
        → (k : Uuid) (r : Refund) → lr.at w.refunds k ≡ some r
        → r.transaction_id ≡ done.refund.transaction_id
        → ⊥
    first_refund s k r e same =
        let b = s.backed k r e in
        let at : l.at w.transactions id ≡ some b.transaction =
          subst (λ i. l.at w.transactions i ≡ some b.transaction) (same ∙ done.transaction ∙ old_id)
            b.stored in
        let one : b.transaction ≡ done.old = ground (arith, at, done.moved.due.is_row.stored) in
        let two : TransactionStatus.refunded ≡ TransactionStatus.captured =
          sym b.refunded
          ∙ subst (λ t. t.status ≡ TransactionStatus.captured) (sym one) done.moved.due.status in
        cc

    -- What is under a key is the refund that was added, or was there before.
    old-or-new :
        (k : Uuid) (r : Refund)
        → lr.at v.refunds k ≡ some r
        → ((k ≡ done.refund.id) × (r ≡ done.refund)) ⊎ (lr.at w.refunds k ≡ some r)
    old-or-new k r e = elim (Bool-cases (done.refund.id == k)) [
      | inl h ↦
          let here = (==_iff done.refund.id k).0 h in
          let at = done.added.stored in inl (sym here, ground (arith, at, e, here))
      | inr h ↦ inr (sym (done.added.others k h) ∙ e)
    ]

    IsSound-added : RowsEvolve w v → IsSound x l lr w → IsSound x l lr v
    IsSound-added evolve s = record {
      backed = λ k r e. elim (old-or-new k r e) [
        | inl h ↦ subst (IsBacked x l lr v) (sym h.1) new-IsBacked
        | inr h ↦ IsBacked-later w v r evolve (s.backed k r h)
      ];
      single = λ j k r q a b same. elim (old-or-new j r a) [
        | inl h ↦ elim (old-or-new k q b) [
          | inl h' ↦ h.0 ∙ sym h'.0
          | inr h' ↦ absurd (first_refund s k q h' (sym same ∙ ap (λ t. t.transaction_id) h.1))
        ]
        | inr h ↦ elim (old-or-new k q b) [
          | inl h' ↦ absurd (first_refund s j r h (same ∙ ap (λ t. t.transaction_id) h'.1))
          | inr h' ↦ s.single j k r q h h' same
        ]
      ];
    }

  IsSound-step :
      (w v : Ledger x) → RowsEvolve w v → AddsOne w v → IsSound x l lr w → IsSound x l lr v
  IsSound-step w v evolve (inl same) s = IsSound-same w v evolve same s
  IsSound-step w v evolve (inr (id, m, out, done)) s = IsSound-added id m out w v done evolve s

  Undone-refunds :
      (input : RefundInput) (w v : World x)
      → Undone x l lr li g input w (ledger v)
      → (k : Uuid) → lr.at v.refunds k ≡ lr.at w.refunds k
  Undone-refunds input w v (inl quiet) k = ap (λ s. lr.at s k) quiet.refunds
  Undone-refunds input w v (inr (inl (tx, c, due, sent))) k = ap (λ s. lr.at s k) sent.refunds
  Undone-refunds input w v (inr (inr (tx, moved, same))) k = same k

  refund-AddsOne :
      (input : RefundInput) (w : World x) (r : Result RefundOutput) (v : World x)
      → Ends
          (λ out v. RefundAnswer x l lr li g input w out (ledger v))
          (λ _ v. Undone x l lr li g input w (ledger v))
          (λ v. Undone x l lr li g input w (ledger v))
          (λ v. Undone x l lr li g input w (ledger v))
          r
          v
      → AddsOne (ledger w) (ledger v)
  refund-AddsOne input w (ok out) v (inl h) = inl (λ k. ap (λ s. lr.at s k) h.1.refunds)
  refund-AddsOne input w (ok out) v (inr h) = inr (input.transaction_id, input.merchant_id, out, h)
  refund-AddsOne input w (err e) v h = inl (Undone-refunds input w v h)
  refund-AddsOne input w (both out e) v h = inl (Undone-refunds input w v h)
  refund-AddsOne input w (panic p) v h = inl (Undone-refunds input w v h)

  unchanged : (w v : Ledger x) → v.refunds ≡ w.refunds → AddsOne w v
  unchanged w v e = inl (λ k. ap (λ s. lr.at s k) e)

  handle-AddsOne : (e : Event) (w : World x) → AddsOne (ledger w) (ledger (handle x g e w))
  unfolding handle
  handle-AddsOne (Event.authorize input) w =
      unchanged _ _ (((authorize-same x li g {strict = true} input).at w).0.refunds refl)
  handle-AddsOne (Event.charge input) w =
      unchanged _ _ (((charge-same x li g {strict = true} input).at w).0.refunds refl)
  handle-AddsOne (Event.capture input) w =
      unchanged _ _ (((capture-same x li g {strict = true} input).at w).0.refunds refl)
  handle-AddsOne (Event.void input) w =
      unchanged _ _ (((void-same x li g {strict = true} input).at w).0.refunds refl)
  handle-AddsOne (Event.refund input) w =
      refund-AddsOne input w _ _ (refund_settles x l lr li g input w)
  handle-AddsOne (Event.save job) w =
      unchanged _ _ (((save_idempotency-same x li g {strict = true} job).at w).0.refunds refl)

  handle-evolve : (e : Event) (w : World x) → RowsEvolve (ledger w) (ledger (handle x g e w))
  unfolding run
  handle-evolve e w k = run_lifecycle x l g (e ∷ []) w k

  -- Over any history of requests and background saves, and with any failures, the rows of the table
  -- of refunds stay sound: if they were at the start, then at the end every one is of a transaction
  -- that is refunded, of its whole amount and its merchant, and no transaction has two. This is about
  -- the refunds that are recorded, not the requests that the gateway was sent.
  pub run-IsSound :
      (es : List Event) (w : World x)
      → IsSound x l lr (ledger w)
      → IsSound x l lr (ledger (run x g es w))
  unfolding run
  run-IsSound [] w s = s
  run-IsSound (e ∷ es) w s =
      run-IsSound es (handle x g e w) (
        IsSound-step (ledger w) (ledger (handle x g e w)) (handle-evolve e w) (handle-AddsOne e w)
          s)
