-- ===== src/Payment/Settle/Refund/Steps.antt =====
-- The request of a refund, the update of the row, and the refund's own row, as triples.
use card_payment_service.Prelude.{
  ◌≡◌, refl, subst, ap, ◌∙◌, Option, none, some, inl, inr, false, not, ◌==◌, arith,
}
use card_payment_service.Domain.{Uuid, Time, Transaction, TransactionStatus, Refund, is_captured}
use card_payment_service.Effect.Triple.{
  Ends, Triple, Triple-pure, Triple-raise, Triple-deref, Triple-bind, Triple-before, Triple-after,
  Triple-assume,
}
use card_payment_service.External.Table.{TableLaws, Reply, Created}
use card_payment_service.Gateway.{Gateway, RefundResponse}
use card_payment_service.World.{Externals, World, Call, on_refunds, result_of, spawn, SaveJob}
use card_payment_service.Repository.{
  transaction_columns, refund_columns, update_transaction, create_refund,
}
use card_payment_service.Payment.Calls.{call_gateway_refund, refund_ref_of}
use card_payment_service.Payment.Transactions.{create_refund_and_update_tx, set_status}
use card_payment_service.Payment.Guards.{Ledger, ledger, IsQuiet, IsRow}
use card_payment_service.Payment.Settle.{IsDue}
use card_payment_service.Payment.Settle.Steps.{
  Sent, ChangedRow, send-triple, update_transaction-triple,
}
use card_payment_service.Payment.Settle.Refund.{refund_call, IsAdded, IsMoved, IsUnrefunded}

module _ (x : Externals) (l : TableLaws x.transactions transaction_columns)
    (lr : TableLaws x.refunds refund_columns) (g : Gateway x.Outside) (w : Ledger x)
    (id merchant_id : Uuid) where
  abbrev pub Unrefunded : World x → Type 0
  Unrefunded v = IsUnrefunded x l lr id merchant_id w (ledger v)

  abbrev pub Due : Transaction → Call → Type 0
  Due tx c = IsDue x l id merchant_id refund_call TransactionStatus.captured w tx c

  abbrev pub Asked : Transaction → World x → Type 0
  Asked tx v = (c : Call) × Due tx c × Sent x l w c v

  refund_ref_of-triple :
      {P : World x → Type 0} {E X : World x → Type 0} (r : Option RefundResponse)
      → ((v : World x) → P v → E v)
      → Triple P (refund_ref_of x g r) (λ _. P) (λ _. E) E X
  refund_ref_of-triple none f = Triple-raise _ f
  refund_ref_of-triple (some resp) f = Triple-pure _ (λ v p. p)

  pub call_gateway_refund-triple :
      (tx : Transaction)
      → IsRow x l id merchant_id w tx
      → tx.status ≡ TransactionStatus.captured
      → Triple
          (λ v. IsQuiet x l w (ledger v))
          (call_gateway_refund x g tx)
          (λ _. Asked tx)
          (λ _. Unrefunded)
          Unrefunded
          Unrefunded
  unfolding call_gateway_refund
  call_gateway_refund-triple tx row status =
      Triple-bind (Triple-deref tx.gateway_ref (λ e v q. inl q)) λ ref. Triple-assume λ v h.
        let c = refund_call tx ref in
        let due : Due tx c = record {
          is_row = row;
          status = status;
          reference = (ref, h.1, refl);
        } in
        Triple-before {P' = λ v. IsQuiet x l w (ledger v)} (λ u q. q.0)
          (Triple-bind {R = λ _. Asked tx}
            (Triple-after (send-triple x l w c _) (λ o u s. (c, due, s))
              (λ o u s. inr (inl (tx, c, due, s))) (λ u s. inr (inl (tx, c, due, s)))
              (λ u s. inr (inl (tx, c, due, s))))
            λ r. refund_ref_of-triple r (λ u a. inr (inl (tx, a.0, a.1, a.2))))

  -- The row is written, and no refund yet.
  abbrev Moved : Transaction → World x → Type 0
  Moved tx v = IsMoved x l lr id merchant_id tx w (ledger v) × (v.refunds ≡ w.refunds)

  Moved-row :
      (tx : Transaction) (c : Call)
      → Due tx c
      → (o : Option Transaction) (v : World x)
      → ChangedRow x l w c id TransactionStatus.refunded o v
      → Moved tx v
  Moved-row tx c due none v h = absurd h
  Moved-row tx c due (some t) v (updated, status, calls, refunds) = (
    record { new = t; request = c; due = due; calls = calls; updated = updated; status = status },
    refunds,
  )

  move-Due-triple :
      (tx : Transaction) (c : Call)
      → Due tx c
      → Triple
          (Sent x l w c)
          (update_transaction x id is_captured (set_status TransactionStatus.refunded))
          (λ _. Moved tx)
          (λ _. Unrefunded)
          Unrefunded
          Unrefunded
  move-Due-triple tx c due =
      let keep : (u : World x) → Sent x l w c u → Unrefunded u = λ u s. inr (inl (tx, c, due, s)) in
      Triple-after
        (update_transaction-triple x l w c id is_captured (set_status TransactionStatus.refunded) tx
          due.is_row.stored due.is_row.same_id (rw due.status))
        (Moved-row tx c due) (λ o. keep) keep keep

  move-triple :
      (tx : Transaction) (i : Uuid)
      → i ≡ id
      → Triple
          (Asked tx)
          (update_transaction x i is_captured (set_status TransactionStatus.refunded))
          (λ _. Moved tx)
          (λ _. Unrefunded)
          Unrefunded
          Unrefunded
  move-triple tx i e = rw e (record { at = λ v (c, due, s). (move-Due-triple tx c due).at v s })

  free_lem :
      (s : x.refunds.State) (r : Refund) (o : Option Refund)
      → lr.at s r.id ≡ o
      → ((k : Uuid) (q : Refund) → lr.at s k ≡ some q → (q.id == r.id) ≡ false)
      → o ≡ none
  free_lem s r none e h = refl
  free_lem s r (some q) e h =
      let key = lr.at_key s r.id q e in let apart = h r.id q e in absurd (ground arith)

  -- The row's part does not read the refunds.
  IsMoved-at :
      (tx : Transaction) (v : World x) (s : x.refunds.State)
      → IsMoved x l lr id merchant_id tx w (ledger v)
      → IsMoved x l lr id merchant_id tx w (ledger (record v { refunds = s }))
  IsMoved-at tx v s m = record {
    new = m.new;
    request = m.request;
    due = m.due;
    calls = m.calls;
    updated = record {
      stored = m.updated.stored;
      same_id = m.updated.same_id;
      kept = m.updated.kept;
      others = m.updated.others;
    };
    status = m.status;
  }

  IsAdded-Ends :
      (tx : Transaction) (r : Refund) (v : World x)
      → Moved tx v
      → (a : Reply Refund × x.refunds.State) → Created refund_columns lr.at lr.clock r v.refunds a
      → Ends {W = World x}
          (λ r' u.
            ((time : Time) × (r' ≡ refund_columns.stamp time r))
            × IsMoved x l lr id merchant_id tx w (ledger u)
            × IsAdded x l lr r' w (ledger u))
          (λ _. Unrefunded)
          Unrefunded
          Unrefunded
          (result_of a.0)
          (record v { refunds = a.1 })
  IsAdded-Ends tx r v m (inl r', s') h =
      let same : r'.id ≡ r.id = rw h.0 in
      let free = free_lem v.refunds r _ refl h.1 in
      (
        (_, h.0),
        IsMoved-at tx v s' m.0,
        record {
          fresh = subst (λ s. lr.at s r'.id ≡ none) m.1 (rw same free);
          stored = ground (arith, h.2 r'.id);
          others = λ k ne. h.2 k ∙ rw (← same, ne, m.1);
        },
      )
  IsAdded-Ends tx r v m (inr e, s') h =
      inr (inr (tx, IsMoved-at tx v s' m.0, λ k. h k ∙ ap (λ s. lr.at s k) m.1))

  pub is_captured_eq :
      (s : TransactionStatus) → not (is_captured s) ≡ false → s ≡ TransactionStatus.captured
  is_captured_eq TransactionStatus.captured h = refl
  is_captured_eq _ h = cc

  create_refund-triple :
      (tx : Transaction) (r : Refund)
      → Triple
          (Moved tx)
          (create_refund x r)
          (λ r' u.
            ((time : Time) × (r' ≡ refund_columns.stamp time r))
            × IsMoved x l lr id merchant_id tx w (ledger u)
            × IsAdded x l lr r' w (ledger u))
          (λ _. Unrefunded)
          Unrefunded
          Unrefunded
  unfolding create_refund on_refunds
  create_refund-triple tx r = record {
    at = λ v m. IsAdded-Ends tx r v m _ (lr.create_lem r v.refunds);
  }

  -- The row and the refund are written, the refund with its times filled in.
  abbrev pub Written : Transaction → Refund → Ledger x → Type 0
  Written tx r u =
      (r' : Refund) × (time : Time) × (r' ≡ refund_columns.stamp time r)
      × IsMoved x l lr id merchant_id tx w u
      × IsAdded x l lr r' w u

  pub create_refund_and_update_tx-triple :
      (tx : Transaction) (r : Refund)
      → tx.id ≡ id
      → Triple
          (Asked tx)
          (create_refund_and_update_tx x tx.id r)
          (λ _ u. Written tx r (ledger u))
          (λ _. Unrefunded)
          Unrefunded
          Unrefunded
  unfolding create_refund_and_update_tx
  create_refund_and_update_tx-triple tx r e = Triple-bind (move-triple tx tx.id e) λ _.
      Triple-bind (create_refund-triple tx r)
        λ r'. Triple-pure tt (λ v h. (r', h.0.0, h.0.1, h.1, h.2))

  pub spawn-triple :
      {E X : World x → Type 0} (P : Ledger x → Type 0) (job : SaveJob)
      → Triple (λ v. P (ledger v)) (spawn {x = x} job) (λ _ v. P (ledger v)) (λ _. E) E X
  unfolding spawn
  spawn-triple P job = record { at = λ v p. p }
