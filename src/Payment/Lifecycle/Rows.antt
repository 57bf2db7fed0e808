-- ===== src/Payment/Lifecycle/Rows.antt =====
-- What each call of a repository, of Redis, of the gateway does to the rows of the transactions.
use card_payment_service.Prelude.{
  ◌≡◌, refl, inl, inr, Option, none, some, Bool, true, ◌==◌, ◌&&◌, arith, Bool-cases,
}
use card_payment_service.Domain.{Uuid, Time, Transaction, TransactionStatus}
use card_payment_service.Effect.{M}
use card_payment_service.Effect.Keeps.{
  Keeps, Gives, Anything, Gives-any_result, Keeps-pure, Keeps-raise, Keeps-catch, Keeps-bind,
}
use card_payment_service.External.Table.{TableLaws, Reply, Created, Found, Updated, changed}
use card_payment_service.World.{
  Externals, Call, SaveJob, TransactionChanges, result_of, on_transactions, on_refunds,
  on_idempotency_keys, on_redis, take_outside, send, spawn,
}
use card_payment_service.Repository.{
  transaction_columns, returned, unmatched_transaction, create_transaction, find_transaction,
  update_transaction,
}
use card_payment_service.Payment.Lifecycle.{
  Step, here, next, Evolves, Evolves-refl, Evolves-eq, RowsEvolve, RowsEvolve-preorder,
}

module _ (x : Externals) (l : TableLaws x.transactions transaction_columns) where
  Gives-Anything : {A : Type 0} (r : Reply A) → Gives Anything (result_of r)
  Gives-Anything (inl a) = tt
  Gives-Anything (inr e) = tt

  -- Calls that do not reach the table.
  pub on_refunds-evolve :
      {A : Type 0} (f : x.refunds.State → Reply A × x.refunds.State)
      → Keeps (RowsEvolve x l) Anything (on_refunds {x = x} f)
  unfolding on_refunds
  on_refunds-evolve f = record {
    at = λ w. (record { row = λ k. Evolves-refl _ }, Gives-Anything (f w.refunds).0);
  }

  pub on_idempotency_keys-evolve :
      {A : Type 0} (f : x.idempotency_keys.State → Reply A × x.idempotency_keys.State)
      → Keeps (RowsEvolve x l) Anything (on_idempotency_keys {x = x} f)
  unfolding on_idempotency_keys
  on_idempotency_keys-evolve f = record {
    at = λ w. (record { row = λ k. Evolves-refl _ }, Gives-Anything (f w.idempotency_keys).0);
  }

  pub on_redis-evolve :
      {A : Type 0} (f : x.redis.State → Reply A × x.redis.State)
      → Keeps (RowsEvolve x l) Anything (on_redis {x = x} f)
  unfolding on_redis
  on_redis-evolve f = record {
    at = λ w. (record { row = λ k. Evolves-refl _ }, Gives-Anything (f w.redis).0);
  }

  pub take_outside-evolve :
      {A : Type 0} (f : x.Outside → A × x.Outside)
      → Keeps (RowsEvolve x l) Anything (take_outside {x = x} f)
  unfolding take_outside
  take_outside-evolve f = record { at = λ w. (record { row = λ k. Evolves-refl _ }, tt) }

  pub send-evolve :
      {A : Type 0} (c : Call) (m : M x.Outside A)
      → Keeps (RowsEvolve x l) Anything (send {x = x} c m)
  unfolding send
  send-evolve c m = record {
    at = λ w. (record { row = λ k. Evolves-refl _ }, Gives-any_result (m w.outside).0);
  }

  pub spawn-evolve : (job : SaveJob) → Keeps (RowsEvolve x l) Anything (spawn {x = x} job)
  unfolding spawn
  spawn-evolve job = record { at = λ w. (record { row = λ k. Evolves-refl _ }, tt) }

  -- A query leaves the rows alone.
  Found-evolve :
      (p : Time → Transaction → Bool) (s : x.transactions.State)
      (r : Reply Transaction × x.transactions.State)
      → Found transaction_columns l.at l.clock p s r
      → (k : Uuid) → Evolves (l.at s k) (l.at r.1 k)
  Found-evolve p s (inl a, s') h k = Evolves-eq (h.2 k)
  Found-evolve p s (inr e, s') h k = Evolves-eq (h.1 k)

  pub find_transaction-evolve :
      (id merchant_id : Uuid) → Keeps (RowsEvolve x l) Anything (find_transaction x id merchant_id)
  unfolding find_transaction on_transactions
  find_transaction-evolve id merchant_id =
      Keeps-bind (RowsEvolve-preorder x l) {P = Anything}
        (record {
          at = λ w. (
            record {
              row =
                  let p =
                    λ (now : Time) (r : Transaction). r.id == id && r.merchant_id == merchant_id in
                  Found-evolve p _ _ (l.first_lem p w.transactions);
            },
            Gives-Anything _,
          );
        })
        (λ a _. Keeps-pure (RowsEvolve-preorder x l) (some a) tt)

  -- An inserted row is pending, under a key that no row had.
  appears :
      (t : Transaction) (o p : Option Transaction)
      → ((q : Transaction) → o ≡ some q → ⊥)
      → p ≡ some t
      → t.status ≡ TransactionStatus.pending
      → Evolves o p
  appears t none none free e pending = tt
  appears t none (some u) free e pending =
      let s : u.status ≡ TransactionStatus.pending = ground arith in rw s here
  appears t (some q) p free e pending = absurd (free q refl)

  Created-evolve :
      (tx : Transaction) (s : x.transactions.State) (r : Reply Transaction × x.transactions.State)
      → tx.status ≡ TransactionStatus.pending
      → Created transaction_columns l.at l.clock tx s r
      → (k : Uuid) → Evolves (l.at s k) (l.at r.1 k)
  Created-evolve tx s (inr e, s') pending h k = Evolves-eq (h k)
  Created-evolve tx s (inl t, s') pending h k = elim (Bool-cases (tx.id == k)) [
    | inl same ↦
        appears t (l.at s k) (l.at s' k) (λ q e. ground (arith, h.1 k q e, l.at_key s k q e))
          (ground (arith, h.2 k)) (ground arith)
    | inr new ↦ Evolves-eq (ground (arith, h.2 k))
  ]

  pub create_transaction-evolve :
      (tx : Transaction)
      → tx.status ≡ TransactionStatus.pending
      → Keeps (RowsEvolve x l) Anything (create_transaction x tx)
  unfolding create_transaction on_transactions
  create_transaction-evolve tx pending =
      Keeps-catch (RowsEvolve-preorder x l) {P = Anything}
        (record {
          at = λ w. (
            record { row = Created-evolve tx _ _ pending (l.create_lem tx w.transactions) },
            Gives-Anything _,
          );
        })
        (λ e. Keeps-raise (RowsEvolve-preorder x l) _)
        (λ a _. Keeps-pure (RowsEvolve-preorder x l) a tt)

  -- An update moves the rows that it matches along the lifecycle.
  changed-evolve :
      (id : Uuid) (has_status : TransactionStatus → Bool) (ch : TransactionChanges)
      (s : x.transactions.State)
      → ((st : TransactionStatus) → has_status st ≡ true → Step st ch.status)
      → (o : Option Transaction)
      → Evolves o
          (changed transaction_columns l.at l.clock (λ r. r.id == id && has_status r.status) ch s o)
  changed-evolve id has_status ch s step none = tt
  changed-evolve id has_status ch s step (some t) =
      elim (Bool-cases (t.id == id && has_status t.status)) [
        | inl hit ↦ rw hit (ground arith, next here (step t.status (ground arith)))
        | inr miss ↦ rw miss (Evolves-refl (some t))
      ]

  Updated-evolve :
      (id : Uuid) (has_status : TransactionStatus → Bool) (ch : TransactionChanges)
      (s : x.transactions.State) (r : Reply (Option Transaction) × x.transactions.State)
      → ((st : TransactionStatus) → has_status st ≡ true → Step st ch.status)
      → Updated transaction_columns l.at l.clock (λ r. r.id == id && has_status r.status) ch s r
      → (k : Uuid) → Evolves (l.at s k) (l.at r.1 k)
  Updated-evolve id has_status ch s (inl none, s') step h k =
      rw (h.1 k) (changed-evolve id has_status ch s step (l.at s k))
  Updated-evolve id has_status ch s (inl (some t), s') step h k =
      rw (h.1 k) (changed-evolve id has_status ch s step (l.at s k))
  Updated-evolve id has_status ch s (inr e, s') step h k = Evolves-eq (h k)

  pub update_transaction-evolve :
      (id : Uuid) (has_status : TransactionStatus → Bool) (ch : TransactionChanges)
      → ((st : TransactionStatus) → has_status st ≡ true → Step st ch.status)
      → Keeps (RowsEvolve x l) Anything (update_transaction x id has_status ch)
  unfolding update_transaction on_transactions
  update_transaction-evolve id has_status ch step =
      Keeps-bind (RowsEvolve-preorder x l) {P = Anything}
        (record {
          at = λ w. (
            record {
              row = Updated-evolve id has_status ch _ _ step (l.updates_lem _ ch w.transactions);
            },
            Gives-Anything _,
          );
        })
        (λ a _.
          Keeps-pure (RowsEvolve-preorder x l) (some (returned (unmatched_transaction ch) a)) tt)
