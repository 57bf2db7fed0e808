-- ===== src/Payment/Settle/Steps.antt =====
-- The gateway's calls and the update of a transaction, as triples.
use card_payment_service.Prelude.{
  ◌≡◌, ◌≢◌, refl, sym, subst, ap, ◌∙◌, Option, none, some, ◌∷◌, inl, inr, Bool, true, false, ◌==◌,
  ◌&&◌, arith,
}
use card_payment_service.Domain.{
  Uuid, Time, Transaction, TransactionStatus, is_failed, gateway_rejected,
}
use card_payment_service.Effect.{M, Result, ok, err, both, panic, deref, pure}
use card_payment_service.Effect.Triple.{Ends, Triple, Triple-pure, Triple-bind, Triple-return_both}
use card_payment_service.External.Table.{TableLaws, Reply, Updated, changed}
use card_payment_service.Gateway.{Gateway}
use card_payment_service.World.{
  Externals, World, Call, TransactionChanges, on_transactions, result_of, send, take_outside,
}
use card_payment_service.Repository.{
  transaction_columns, update_transaction, returned, unmatched_transaction,
}
use card_payment_service.Payment.Service.{finish}
use card_payment_service.Payment.Guards.{Ledger, ledger, IsQuiet}
use card_payment_service.Payment.Lifecycle.{SameCharge}
use card_payment_service.Payment.Settle.{IsSent, IsUpdated}

-- An update keeps the charge.
same_charge :
    (time : Time) (ch : TransactionChanges) (r t : Transaction)
    → t ≡ transaction_columns.apply time ch r
    → SameCharge r t
same_charge time ch r t e = rw e (record {
  id = refl;
  merchant_id = refl;
  payment_type = refl;
  card_token = refl;
  amount = refl;
  currency = refl;
  idempotency_key = refl;
})

module _ (x : Externals) (l : TableLaws x.transactions transaction_columns) (w : Ledger x) where
  abbrev pub Sent : Call → World x → Type 0
  Sent c v = IsSent x l c w (ledger v)

  any_end :
      {A : Type 0} (c : Call) (r : Result A) (v : World x)
      → Sent c v
      → Ends {W = World x} (λ (_ : A). Sent c) (λ _. Sent c) (Sent c) (Sent c) r v
  any_end c (ok a) v s = s
  any_end c (err e) v s = s
  any_end c (both a e) v s = s
  any_end c (panic p) v s = s

  pub send-triple :
      {A : Type 0} (c : Call) (m : M x.Outside A)
      → Triple
          (λ v. IsQuiet x l w (ledger v))
          (send {x = x} c m)
          (λ _. Sent c)
          (λ _. Sent c)
          (Sent c)
          (Sent c)
  unfolding send
  send-triple c m = record {
    at = λ v q.
        any_end c (m v.outside).0 _
          (record { row = q.row; calls = ap (λ cs. c ∷ cs) q.calls; refunds = q.refunds });
  }

  -- The row that an update answers, where the condition holds of the row under the id.
  abbrev pub Changed : Call → Uuid → TransactionStatus → Transaction → World x → Type 0
  Changed c id status t v =
      IsUpdated x l id t w (ledger v)
      × (t.status ≡ status)
      × (v.calls ≡ c ∷ w.calls)
      × (v.refunds ≡ w.refunds)

  abbrev pub ChangedRow : Call → Uuid → TransactionStatus → Option Transaction → World x → Type 0
  ChangedRow c id status none v = ⊥
  ChangedRow c id status (some t) v = Changed c id status t v

  module _ (c : Call) (id : Uuid) (has_status : TransactionStatus → Bool) (ch : TransactionChanges)
      (tx : Transaction) (stored : l.at w.transactions id ≡ some tx) (same_id : tx.id ≡ id)
      (holds : has_status tx.status ≡ true) where
    others_kept :
        (s : x.transactions.State) (k : Uuid) (o : Option Transaction)
        → l.at s k ≡ o
        → k ≢ id
        → changed transaction_columns l.at l.clock (λ r. r.id == id && has_status r.status) ch s o
          ≡ o
    others_kept s k none e ne = refl
    others_kept s k (some q) e ne = ground (arith, l.at_key s k q e)

    changed_hit :
        (s : x.transactions.State) (r t : Transaction)
        → l.at s id ≡ some r
        → (r.id == id && has_status r.status) ≡ true
        → t ≡ transaction_columns.apply (l.clock s) ch r
        → changed transaction_columns l.at l.clock
            (λ r. r.id == id && has_status r.status)
            ch
            s
            (l.at s id)
          ≡ some t
    changed_hit s r t here hit same = rw (here, hit, same)

    Updated-Ends :
        (v : World x)
        → Sent c v
        → (r : Reply (Option Transaction) × x.transactions.State)
        → Updated transaction_columns l.at l.clock
            (λ r. r.id == id && has_status r.status)
            ch
            v.transactions
            r
        → Ends {W = World x}
            (λ o. Changed c id ch.status (returned (unmatched_transaction ch) o))
            (λ _. Sent c)
            (Sent c)
            (Sent c)
            (result_of r.0)
            (record v { transactions = r.1 })
    Updated-Ends v s (inl none, s') h =
        let missed = h.0 id tx (s.row id ∙ stored) in absurd (ground arith)
    Updated-Ends v s (inl (some t), s') ((r, here, hit, same), rows) =
        let r_id : r.id ≡ id = ground arith in
        let at_id = subst (λ k. l.at v.transactions k ≡ some r) r_id here in
        let both : some r ≡ some tx = sym at_id ∙ s.row id ∙ stored in
        let r_tx : r ≡ tx = cc in
        (
          record {
            stored = rows id ∙ changed_hit v.transactions r t at_id hit same;
            same_id = ground arith;
            kept = (
              tx,
              stored,
              subst (λ q. SameCharge q t) r_tx (same_charge (l.clock v.transactions) ch r t same),
            );
            others = λ k ne. rows k ∙ others_kept v.transactions k _ refl ne ∙ s.row k;
          },
          ground arith,
          s.calls,
          s.refunds,
        )
    Updated-Ends v s (inr e, s') h = record {
      row = λ k. h k ∙ s.row k;
      calls = s.calls;
      refunds = s.refunds;
    }

    pub update_transaction-triple :
        Triple
          (Sent c)
          (update_transaction x id has_status ch)
          (ChangedRow c id ch.status)
          (λ _. Sent c)
          (Sent c)
          (Sent c)
    unfolding update_transaction on_transactions
    update_transaction-triple =
        Triple-bind {R = λ o. Changed c id ch.status (returned (unmatched_transaction ch) o)}
          (record { at = λ v s. Updated-Ends v s _ (l.updates_lem _ ch v.transactions) })
          (λ o. Triple-pure _ (λ v h. h))

  -- A value from outside leaves the ledger alone.
  pub take_outside-triple :
      {A : Type 0} {E X : World x → Type 0} (P : Ledger x → Type 0) (f : x.Outside → A × x.Outside)
      → Triple (λ v. P (ledger v)) (take_outside {x = x} f) (λ _ v. P (ledger v)) (λ _. E) E X
  unfolding take_outside
  take_outside-triple P f = record { at = λ v p. p }

  -- The row that an update has answered is there to read.
  pub deref-Changed :
      {E X : World x → Type 0} (c : Call) (id : Uuid) (status : TransactionStatus)
      (o : Option Transaction)
      → Triple (ChangedRow c id status o) (deref o) (Changed c id status) (λ _. E) E X
  unfolding deref pure
  deref-Changed c id status none = record { at = λ v h. absurd h }
  deref-Changed c id status (some t) = record { at = λ v h. h }

module _ (x : Externals) (g : Gateway x.Outside) {E X : World x → Type 0} where
  pub finish_ok :
      {A : Type 0} {P : World x → Type 0} {Q B : A → World x → Type 0} (status : TransactionStatus)
      (out : A)
      → is_failed status ≡ false
      → ((v : World x) → P v → Q out v)
      → Triple P (finish x g status out) Q B E X
  unfolding finish
  finish_ok status out e f = rw e (Triple-pure out f)

  pub finish_failed :
      {A : Type 0} {P : World x → Type 0} {Q B : A → World x → Type 0} (status : TransactionStatus)
      (out : A)
      → is_failed status ≡ true
      → ((v : World x) → P v → B out v)
      → Triple P (finish x g status out) Q B E X
  unfolding finish
  finish_failed status out e f = rw e (Triple-return_both out gateway_rejected f)
