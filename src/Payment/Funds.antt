-- ===== src/Payment/Funds.antt =====
-- The rows of the table of refunds against those of the transactions.
pub mod Backed
use card_payment_service.Prelude.{◌≡◌, Option, some}
use card_payment_service.Domain.{Uuid, Transaction, TransactionStatus, Refund}
use card_payment_service.External.Table.{TableLaws}
use card_payment_service.World.{Externals}
use card_payment_service.Repository.{transaction_columns, refund_columns}
use card_payment_service.Payment.Guards.{Ledger}

module _ (x : Externals) (l : TableLaws x.transactions transaction_columns)
    (lr : TableLaws x.refunds refund_columns) where
  -- A refund is of a transaction that is refunded, of its whole amount, and of its merchant.
  pub record IsBacked (w : Ledger x) (r : Refund) : Type 0 where
    pub transaction : Transaction
    pub stored : l.at w.transactions r.transaction_id ≡ some transaction
    pub refunded : transaction.status ≡ TransactionStatus.refunded
    pub amount : r.amount ≡ transaction.amount
    pub owner : r.merchant_id ≡ transaction.merchant_id

  -- Every refund is backed, and no transaction has two.
  pub record IsSound (w : Ledger x) : Type 0 where
    pub backed : (k : Uuid) (r : Refund) → lr.at w.refunds k ≡ some r → IsBacked w r
    pub single :
        (j k : Uuid) (r q : Refund)
        → lr.at w.refunds j ≡ some r
        → lr.at w.refunds k ≡ some q
        → r.transaction_id ≡ q.transaction_id
        → j ≡ k
