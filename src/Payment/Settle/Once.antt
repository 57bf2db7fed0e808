-- ===== src/Payment/Settle/Once.antt =====
-- A transaction that has been captured or voided is never captured or voided again.
use card_payment_service.Prelude.{
  String, ◌≡◌, refl, sym, subst, Option, none, some, List, inl, inr, arith,
}
use card_payment_service.Domain.{Uuid, Transaction, TransactionStatus}
use card_payment_service.Effect.{Result, ok, err, both, panic}
use card_payment_service.Effect.Triple.{Ends}
use card_payment_service.External.Table.{TableLaws}
use card_payment_service.Gateway.{Gateway}
use card_payment_service.World.{Externals, World, Call}
use card_payment_service.Repository.{transaction_columns}
use card_payment_service.Payment.Types.{CaptureInput, CaptureOutput, VoidInput, VoidOutput}
use card_payment_service.Payment.Service.{capture, void}
use card_payment_service.Payment.History.{Event, run}
use card_payment_service.Payment.Guards.{Ledger, ledger, IsQuiet}
use card_payment_service.Payment.Lifecycle.{Step, Reach, Evolves}
use card_payment_service.Payment.Lifecycle.Requests.{run_lifecycle}
use card_payment_service.Payment.Settle.{IsDue, IsSettled}
use card_payment_service.Payment.Settle.Asked.{capture_call, void_call}
use card_payment_service.Payment.Settle.Capture.{Settled, Unsettled}
use card_payment_service.Payment.Settle.Requests.{capture_settles, void_settles}

-- The statuses that no longer lead to `authorized`.
abbrev pub IsSpent : TransactionStatus → Type 0
IsSpent TransactionStatus.captured = Unit
IsSpent TransactionStatus.voided = Unit
IsSpent TransactionStatus.failed = Unit
IsSpent TransactionStatus.refunded = Unit
IsSpent _ = ⊥

IsSpent-step : {s t : TransactionStatus} → Step s t → IsSpent s → IsSpent t
IsSpent-step Step.hold p = absurd p
IsSpent-step Step.charge p = tt
IsSpent-step Step.reject p = tt
IsSpent-step Step.capture p = tt
IsSpent-step Step.void p = tt
IsSpent-step Step.fail p = tt
IsSpent-step Step.refund p = tt

pub IsSpent-Reach : {s t : TransactionStatus} → Reach s t → IsSpent s → IsSpent t
IsSpent-Reach Reach.here p = p
IsSpent-Reach (Reach.next r st) p = IsSpent-step st (IsSpent-Reach r p)

-- A call that came back with a value.
abbrev pub Answers : {A : Type 0} → Result A → Type 0
Answers (ok a) = Unit
Answers (both a e) = Unit
Answers _ = ⊥

-- A call that came back with an error and no value, or panicked.
abbrev pub Fails : {A : Type 0} → Result A → Type 0
Fails (err e) = Unit
Fails (panic p) = Unit
Fails _ = ⊥

module _ (x : Externals) (l : TableLaws x.transactions transaction_columns)
    (g : Gateway x.Outside) where
  -- The row under an id is there, and spent.
  pub record IsDone (id : Uuid) (w : Ledger x) : Type 0 where
    pub row : Transaction
    pub stored : l.at w.transactions id ≡ some row
    pub spent : IsSpent row.status

  -- What a request does to a transaction that is spent: nothing, and it fails.
  abbrev pub IsRefused : {A : Type 0} → Ledger x → Result A × World x → Type 0
  IsRefused w (r, v) = IsQuiet x l w (ledger v) × Fails r

  Evolves-IsDone :
      (id : Uuid) (w v : Ledger x) (d : IsDone id w) (o : Option Transaction)
      → l.at v.transactions id ≡ o
      → Evolves (some d.row) o
      → IsDone id v
  Evolves-IsDone id w v d none e h = absurd h
  Evolves-IsDone id w v d (some u) e h = record {
    row = u;
    stored = e;
    spent = IsSpent-Reach h.1 d.spent;
  }

  pub run-IsDone :
      (es : List Event) (id : Uuid) (w : World x)
      → IsDone id (ledger w)
      → IsDone id (ledger (run x g es w))
  run-IsDone es id w d = Evolves-IsDone id _ _ d _ refl (
      subst (λ o. Evolves o (l.at (run x g es w).transactions id)) d.stored
        (run_lifecycle x l g es w id))

  module _ (id merchant_id : Uuid) (call : Transaction → String → Call) (w : Ledger x) where
    settled-IsDone :
        (after : TransactionStatus) (v : Ledger x)
        → IsSpent after
        → IsSettled x l id merchant_id call TransactionStatus.authorized after w v
        → IsDone id v
    settled-IsDone after v p s = record {
      row = s.new;
      stored = s.updated.stored;
      spent = subst IsSpent (sym s.status) p;
    }

    not_due :
        (tx : Transaction) (c : Call)
        → IsDone id w
        → IsDue x l id merchant_id call TransactionStatus.authorized w tx c
        → ⊥
    not_due tx c d due =
        let same : d.row ≡ tx = ground (arith, d.stored, due.is_row.stored) in
        subst IsSpent (due.status) (subst (λ t. IsSpent t.status) same d.spent)

    IsRefused-Ends :
        {A : Type 0} (out_id : A → Uuid) (out_status : A → TransactionStatus)
        (target : TransactionStatus) (r : Result A) (v : World x)
        → IsDone id w
        → Ends
            (λ a v.
              Settled x l g w id merchant_id call TransactionStatus.authorized target
                (out_id a)
                (out_status a)
                (ledger v))
            (λ a v.
              Settled x l g w id merchant_id call TransactionStatus.authorized
                TransactionStatus.failed
                (out_id a)
                (out_status a)
                (ledger v))
            (λ v. Unsettled x l g w id merchant_id call TransactionStatus.authorized (ledger v))
            (λ v. Unsettled x l g w id merchant_id call TransactionStatus.authorized (ledger v))
            r
            v
        → IsRefused w (r, v)
    IsRefused-Ends i s t (ok a) v d h = absurd (not_due h.0.old h.0.request d h.0.due)
    IsRefused-Ends i s t (both a e) v d h = absurd (not_due h.0.old h.0.request d h.0.due)
    IsRefused-Ends i s t (err e) v d (inl q) = (q, tt)
    IsRefused-Ends i s t (err e) v d (inr (tx, c, due, sent)) = absurd (not_due tx c d due)
    IsRefused-Ends i s t (panic p) v d (inl q) = (q, tt)
    IsRefused-Ends i s t (panic p) v d (inr (tx, c, due, sent)) = absurd (not_due tx c d due)

    IsDone-Ends :
        {A : Type 0} (out_id : A → Uuid) (out_status : A → TransactionStatus)
        (target : TransactionStatus) (r : Result A) (v : World x)
        → IsSpent target
        → Answers r
        → Ends
            (λ a v.
              Settled x l g w id merchant_id call TransactionStatus.authorized target
                (out_id a)
                (out_status a)
                (ledger v))
            (λ a v.
              Settled x l g w id merchant_id call TransactionStatus.authorized
                TransactionStatus.failed
                (out_id a)
                (out_status a)
                (ledger v))
            (λ v. Unsettled x l g w id merchant_id call TransactionStatus.authorized (ledger v))
            (λ v. Unsettled x l g w id merchant_id call TransactionStatus.authorized (ledger v))
            r
            v
        → IsDone id (ledger v)
    IsDone-Ends i s t (ok a) v p h ends = settled-IsDone t (ledger v) p ends.0
    IsDone-Ends i s t (both a e) v p h ends =
        settled-IsDone TransactionStatus.failed (ledger v) tt ends.0
    IsDone-Ends i s t (err e) v p h ends = absurd h
    IsDone-Ends i s t (panic q) v p h ends = absurd h

  capture-IsRefused :
      (input : CaptureInput) (w : World x)
      → IsDone input.transaction_id (ledger w)
      → IsRefused (ledger w) (capture x g input w)
  capture-IsRefused input w d =
      IsRefused-Ends input.transaction_id input.merchant_id (capture_call x) (ledger w)
        (λ (a : CaptureOutput). a.transaction_id) (λ a. a.status) TransactionStatus.captured _ _ d
        (capture_settles x l g input w)

  void-IsRefused :
      (input : VoidInput) (w : World x)
      → IsDone input.transaction_id (ledger w)
      → IsRefused (ledger w) (void x g input w)
  void-IsRefused input w d =
      IsRefused-Ends input.transaction_id input.merchant_id (void_call x) (ledger w)
        (λ (a : VoidOutput). a.transaction_id) (λ a. a.status) TransactionStatus.voided _ _ d
        (void_settles x l g input w)

  -- What has been answered is spent.
  pub capture-IsDone :
      (input : CaptureInput) (w : World x)
      → Answers (capture x g input w).0
      → IsDone input.transaction_id (ledger (capture x g input w).1)
  capture-IsDone input w answers =
      IsDone-Ends input.transaction_id input.merchant_id (capture_call x) (ledger w)
        (λ (a : CaptureOutput). a.transaction_id) (λ a. a.status) TransactionStatus.captured _ _ tt
        answers (capture_settles x l g input w)

  pub void-IsDone :
      (input : VoidInput) (w : World x)
      → Answers (void x g input w).0
      → IsDone input.transaction_id (ledger (void x g input w).1)
  void-IsDone input w answers =
      IsDone-Ends input.transaction_id input.merchant_id (void_call x) (ledger w)
        (λ (a : VoidOutput). a.transaction_id) (λ a. a.status) TransactionStatus.voided _ _ tt
        answers (void_settles x l g input w)

  -- Both requests, by any merchant, on a transaction that is spent.
  abbrev pub BothRefused : Uuid → Uuid → World x → Type 0
  BothRefused id merchant_id w =
      IsRefused (ledger w)
        (capture x g (record { transaction_id = id; merchant_id = merchant_id }) w)
      × IsRefused (ledger w)
          (void x g (record { transaction_id = id; merchant_id = merchant_id }) w)

  both_refused :
      (es : List Event) (id merchant_id : Uuid) (w : World x)
      → IsDone id (ledger w)
      → BothRefused id merchant_id (run x g es w)
  both_refused es id merchant_id w d =
      let done = run-IsDone es id w d in
      (capture-IsRefused _ (run x g es w) done, void-IsRefused _ (run x g es w) done)

  -- Once `Capture` has come back with a value, with or without an error, and after any history of
  -- requests and background saves, any further `Capture` or `Void` of that transaction, by any
  -- merchant, fails, sends nothing to the gateway, and changes no transaction and no refund.
  pub capture_final :
      (input : CaptureInput) (w : World x)
      → Answers (capture x g input w).0
      → (es : List Event) (merchant_id : Uuid)
      → BothRefused input.transaction_id merchant_id (run x g es (capture x g input w).1)
  capture_final input w answers es merchant_id =
      both_refused es input.transaction_id merchant_id _ (capture-IsDone input w answers)

  -- Once `Void` has come back with a value, with or without an error, and after any history of
  -- requests and background saves, any further `Capture` or `Void` of that transaction, by any
  -- merchant, fails, sends nothing to the gateway, and changes no transaction and no refund.
  pub void_final :
      (input : VoidInput) (w : World x)
      → Answers (void x g input w).0
      → (es : List Event) (merchant_id : Uuid)
      → BothRefused input.transaction_id merchant_id (run x g es (void x g input w).1)
  void_final input w answers es merchant_id =
      both_refused es input.transaction_id merchant_id _ (void-IsDone input w answers)
