-- ===== src/Payment/Lifecycle.antt =====
-- The lifecycle of a transaction, as a relation between statuses, and what a call may do to the
-- rows of the table. The readme's diagram has an edge from `authorized` for a failure alone; the
-- code also fails a pending transaction and, for a direct charge, captures one.
pub mod Rows
pub mod Calls
pub mod Requests
use card_payment_service.Prelude.{◌≡◌, ◌∙◌, Option, none, some, arith}
use card_payment_service.Domain.{Uuid, Transaction, TransactionStatus}
use card_payment_service.External.Table.{TableLaws}
use card_payment_service.Effect.Keeps.{IsPreorder}
use card_payment_service.Repository.{transaction_columns}
use card_payment_service.World.{Externals, World}

pub data Step : TransactionStatus → TransactionStatus → Type 0 where
  hold : Step TransactionStatus.pending TransactionStatus.authorized
  charge : Step TransactionStatus.pending TransactionStatus.captured
  reject : Step TransactionStatus.pending TransactionStatus.failed
  capture : Step TransactionStatus.authorized TransactionStatus.captured
  void : Step TransactionStatus.authorized TransactionStatus.voided
  fail : Step TransactionStatus.authorized TransactionStatus.failed
  refund : Step TransactionStatus.captured TransactionStatus.refunded

pub data Reach (s : TransactionStatus) : TransactionStatus → Type 0 where
  here : Reach s s
  next : {t u : TransactionStatus} → Reach s t → Step t u → Reach s u

pub Reach-trans : {s t u : TransactionStatus} → Reach s t → Reach t u → Reach s u
Reach-trans r here = r
Reach-trans r (next q st) = next (Reach-trans r q) st

-- What no operation changes.
pub record SameCharge (t u : Transaction) : Type 0 where
  pub id : u.id ≡ t.id
  pub merchant_id : u.merchant_id ≡ t.merchant_id
  pub payment_type : u.payment_type ≡ t.payment_type
  pub card_token : u.card_token ≡ t.card_token
  pub amount : u.amount ≡ t.amount
  pub currency : u.currency ≡ t.currency
  pub idempotency_key : u.idempotency_key ≡ t.idempotency_key

-- A row appears pending and goes on from there; a row that is there stays, with its charge, and its
-- status moves along the lifecycle.
abbrev pub Evolves : Option Transaction → Option Transaction → Type 0
Evolves none none = Unit
Evolves none (some u) = Reach TransactionStatus.pending u.status
Evolves (some t) none = ⊥
Evolves (some t) (some u) = SameCharge t u × Reach t.status u.status

pub Evolves-refl : (o : Option Transaction) → Evolves o o
Evolves-refl none = tt
Evolves-refl (some t) = (ground arith, here)

SameCharge-trans : {t u v : Transaction} → SameCharge t u → SameCharge u v → SameCharge t v
SameCharge-trans p q = record {
  id = q.id ∙ p.id;
  merchant_id = q.merchant_id ∙ p.merchant_id;
  payment_type = q.payment_type ∙ p.payment_type;
  card_token = q.card_token ∙ p.card_token;
  amount = q.amount ∙ p.amount;
  currency = q.currency ∙ p.currency;
  idempotency_key = q.idempotency_key ∙ p.idempotency_key;
}

pub Evolves-trans : (o p q : Option Transaction) → Evolves o p → Evolves p q → Evolves o q
Evolves-trans none none none h k = tt
Evolves-trans none none (some v) h k = k
Evolves-trans none (some u) none h k = absurd k
Evolves-trans none (some u) (some v) h k = Reach-trans h k.1
Evolves-trans (some t) none q h k = absurd h
Evolves-trans (some t) (some u) none h k = absurd k
Evolves-trans (some t) (some u) (some v) h k = (SameCharge-trans h.0 k.0, Reach-trans h.1 k.1)

pub Evolves-eq : {o p : Option Transaction} → p ≡ o → Evolves o p
Evolves-eq {o} {p} e = rw e (Evolves-refl o)

module _ (x : Externals) (l : TableLaws x.transactions transaction_columns) where
  -- Every row evolves between two states.
  pub record RowsEvolve (w w' : World x) : Type 0 where
    pub row : (k : Uuid) → Evolves (l.at w.transactions k) (l.at w'.transactions k)

  pub RowsEvolve-preorder : IsPreorder RowsEvolve
  RowsEvolve-preorder = record {
    same = λ w. record { row = λ k. Evolves-refl _ };
    trans = λ u v w h k. record { row = λ j. Evolves-trans _ _ _ (h.row j) (k.row j) };
  }
