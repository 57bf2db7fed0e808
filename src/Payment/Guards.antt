-- ===== src/Payment/Guards.antt =====
-- What the reads at the start of an operation guarantee: the row that it acts on.
use card_payment_service.Prelude.{
  String, ◌≡◌, refl, subst, ◌∙◌, Option, none, some, List, false, inl, inr, ◌==◌, ◌&&◌, not, arith,
}
use card_payment_service.Domain.{Uuid, Time, Transaction, TransactionStatus, is_authorized}
use card_payment_service.Effect.{deref, pure}
use card_payment_service.Effect.Triple.{
  Ends, Triple, Triple-pure, Triple-raise, Triple-raise_if, Triple-catch, Triple-bind,
}
use card_payment_service.External.Table.{TableLaws, Reply, Found}
use card_payment_service.World.{Externals, World, Call, on_transactions, result_of}
use card_payment_service.Repository.{transaction_columns, find_transaction}
use card_payment_service.Payment.Transactions.{get_tx_authorized, is_none}

abbrev pub Never : {W : Type 0} → W → Type 0
Never w = ⊥

-- The part of the state that the operations on one transaction are about.
pub record Ledger (x : Externals) : Type 0 where
  pub transactions : x.transactions.State
  pub calls : List Call
  pub refunds : x.refunds.State

abbrev pub ledger : {x : Externals} → World x → Ledger x
ledger w = record { transactions = w.transactions; calls = w.calls; refunds = w.refunds }

module _ (x : Externals) (l : TableLaws x.transactions transaction_columns) where
  -- No transaction has changed, nothing was sent to the gateway, and no refund was written.
  pub record IsQuiet (w w' : Ledger x) : Type 0 where
    pub row : (k : Uuid) → l.at w'.transactions k ≡ l.at w.transactions k
    pub calls : w'.calls ≡ w.calls
    pub refunds : w'.refunds ≡ w.refunds

  -- A transaction is the merchant's own row under an id.
  pub record IsRow (id merchant_id : Uuid) (w : Ledger x) (tx : Transaction) : Type 0 where
    pub stored : l.at w.transactions id ≡ some tx
    pub same_id : tx.id ≡ id
    pub owner : tx.merchant_id ≡ merchant_id

  module _ (id merchant_id : Uuid) (w : Ledger x) where
    abbrev pub Stays : World x → Type 0
    Stays v = IsQuiet w (ledger v)

    abbrev pub IsFound : Option Transaction → World x → Type 0
    IsFound none w' = ⊥
    IsFound (some tx) w' = IsRow id merchant_id w tx × IsQuiet w (ledger w')

    Found-Ends :
        (v : World x)
        → IsQuiet w (ledger v)
        → (r : Reply Transaction × x.transactions.State)
        → Found transaction_columns l.at l.clock
            (λ (now : Time) (r : Transaction). r.id == id && r.merchant_id == merchant_id)
            v.transactions
            r
        → Ends {W = World x}
            (λ tx w'. IsRow id merchant_id w tx × IsQuiet w (ledger w'))
            (λ _. Stays)
            Stays
            Never
            (result_of r.0)
            (record v { transactions = r.1 })
    Found-Ends v q (inl tx, s') h =
        let same : tx.id ≡ id = ground arith in
        (
          record {
            stored =
                subst (λ k. l.at w.transactions k ≡ some tx) same (ground (arith, q.row tx.id));
            same_id = same;
            owner = ground arith;
          },
          record { row = λ k. h.2 k ∙ q.row k; calls = q.calls; refunds = q.refunds },
        )
    Found-Ends v q (inr e, s') h = record {
      row = λ k. h.1 k ∙ q.row k;
      calls = q.calls;
      refunds = q.refunds;
    }

    pub find_transaction-triple :
        Triple Stays (find_transaction x id merchant_id) IsFound (λ _. Stays) Stays Never
    unfolding find_transaction on_transactions
    find_transaction-triple =
        Triple-bind {R = λ tx w'. IsRow id merchant_id w tx × IsQuiet w (ledger w')}
          (record { at = λ v q. Found-Ends v q _ (l.first_lem _ v.transactions) })
          (λ tx. Triple-pure (some tx) (λ v h. h))

    pub record IsAuthorized (tx : Transaction) (w' : World x) : Type 0 where
      pub is_row : IsRow id merchant_id w tx
      pub authorized : tx.status ≡ TransactionStatus.authorized
      pub referenced : (ref : String) × (tx.gateway_ref ≡ some ref)
      pub quiet : IsQuiet w (ledger w')

    is_authorized_eq :
        (s : TransactionStatus) → not (is_authorized s) ≡ false → s ≡ TransactionStatus.authorized
    is_authorized_eq TransactionStatus.authorized h = refl
    is_authorized_eq _ h = cc

    is_none_eq : (o : Option String) → is_none o ≡ false → (ref : String) × (o ≡ some ref)
    is_none_eq none h = cc
    is_none_eq (some ref) h = (ref, refl)

    pub deref-IsFound :
        (found : Option Transaction)
        → Triple
            (IsFound found)
            (deref found)
            (λ tx w'. IsRow id merchant_id w tx × IsQuiet w (ledger w'))
            (λ _. Stays)
            Stays
            Never
    unfolding deref pure
    deref-IsFound none = record { at = λ v h. absurd h }
    deref-IsFound (some tx) = record { at = λ v h. h }

    -- `getTxAuthorized` answers the merchant's own row, which is authorized and has a reference. It
    -- changes no row and never panics.
    pub get_tx_authorized-triple :
        Triple Stays (get_tx_authorized x id merchant_id) IsAuthorized (λ _. Stays) Stays Never
    unfolding get_tx_authorized
    get_tx_authorized-triple =
        Triple-bind
          (Triple-catch find_transaction-triple (λ e. Triple-raise _ (λ v h. h))
            (λ f. Triple-pure f (λ v h. h)))
          λ found. Triple-bind (deref-IsFound found) λ tx.
            Triple-bind (Triple-raise_if _ _ (λ _ v h. h.1)) λ _.
              Triple-bind (Triple-raise_if _ _ (λ _ v h. h.0.1)) λ _. Triple-pure tx λ v h. record {
                is_row = h.0.0.0;
                authorized = is_authorized_eq tx.status h.1;
                referenced = is_none_eq tx.gateway_ref h.0.1;
                quiet = h.0.0.1;
              }
