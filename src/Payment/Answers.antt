-- ===== src/Payment/Answers.antt =====
-- The steps of `Capture` and `Void` on a database that answers: on an authorized transaction, and
-- with a gateway that does not panic and whose texts of errors fit their column, none of them fails.
pub mod Requests
use card_payment_service.Prelude.{
  ℕ, String, ◌≡◌, refl, ap, sym, subst, ◌∙◌, Option, none, some, Bool, true, false, not, inl, inr,
  ◌==◌, ◌&&◌, if◌then◌else◌, arith, Option-cases,
}
use card_payment_service.Domain.{
  Uuid, Time, Error, error_text, record_not_found, Transaction, TransactionStatus, is_authorized,
  is_captured, is_failed, is_voided,
}
use card_payment_service.Effect.{
  M, Result, ok, err, both, panic, pure, catch, resume, deref, deferred, ◌>>=◌,
}
use card_payment_service.Effect.Runs.{>>=_ok}
use card_payment_service.Effect.Triple.{
  Ends, Triple, Triple-pure, Triple-raise, Triple-return_both, Triple-raise_if, Triple-deref_some,
  Triple-catch, Triple-bind, Triple-if, Triple-before, Triple-after, Triple-assume,
}
use card_payment_service.External.Table.{TableLaws, Reply, Found, Unfitting}
use card_payment_service.External.Table
use card_payment_service.Gateway.{Gateway, CaptureRequest, VoidRequest}
use card_payment_service.World.{
  Externals, World, Call, TransactionChanges, on_transactions, take_outside, send, result_of,
}
use card_payment_service.Repository.{
  transaction_columns, fits_text, find_transaction, update_transaction, returned, zero_transaction,
}
use card_payment_service.Payment.Types.{CaptureInput, CaptureOutput, VoidInput, VoidOutput}
use card_payment_service.Payment.Calls.{
  GatewayOutcome, failure, capture_outcome, void_outcome, call_gateway_capture, call_gateway_void,
}
use card_payment_service.Payment.Transactions.{get_tx_authorized, is_none}
use card_payment_service.Payment.Service.{
  outcome_changes, finish, capture_time, capture_locked, void_locked, capture, void,
}
use card_payment_service.Lock.{release}
use card_payment_service.Payment.Guards.{Ledger, ledger, Never}
use card_payment_service.Payment.Settle.Locked.{acquire_lock-triple}
use card_payment_service.Payment.Settle.Once.{Answers, IsDone, capture-IsDone, void-IsDone}

-- A call that has not panicked, and of which the service makes a reason of failure that the column
-- takes, if it makes one.
abbrev pub IsBrief : {A : Type 0} → (ℕ → String → Bool) → (A → GatewayOutcome) → Result A → Type 0
IsBrief storable outcome (ok a) = fits_text storable 500 (outcome a).failed_reason ≡ true
IsBrief storable outcome (err e) = storable 500 (error_text e) ≡ true
IsBrief storable outcome (both a e) = storable 500 (error_text e) ≡ true
IsBrief storable outcome (panic p) = ⊥

module _ (x : Externals) (l : TableLaws x.transactions transaction_columns) (g : Gateway x.Outside)
    (id merchant_id : Uuid) where
  -- The merchant's transaction is there, authorized and with a reference, and its texts fit.
  pub record IsOpen (tx : Transaction) : Type 0 where
    pub id_is : tx.id ≡ id
    pub owner : tx.merchant_id ≡ merchant_id
    pub status : tx.status ≡ TransactionStatus.authorized
    pub ref : String
    pub reference : tx.gateway_ref ≡ some ref
    pub fits : transaction_columns.fits l.storable tx ≡ true

  module _ (tx : Transaction) (opened : IsOpen tx) where
    -- The database answers, and has the transaction.
    abbrev pub Has : x.transactions.State → Type 0
    Has s = (l.up s ≡ true) × (l.at s id ≡ some tx)

    abbrev pub IsReady : World x → Type 0
    IsReady w = Has w.transactions

    Found-Has :
        (s : x.transactions.State) (r : Reply Transaction × x.transactions.State)
        → Has s
        → Found transaction_columns l.at l.clock
            (λ _ r. r.id == id && r.merchant_id == merchant_id)
            s
            r
        → Table.Answers l.up (λ e. e ≡ record_not_found) s r
        → (v : World x)
        → Ends {W = World x}
            (λ t v. (t ≡ tx) × IsReady v)
            (λ _. Never)
            Never
            Never
            (result_of r.0)
            (record v { transactions = r.1 })
    Found-Has s (inl t, s') h found up v =
        let same : t.id ≡ id = ground arith in
        let at : l.at s id ≡ some t = subst (λ k. l.at s k ≡ some t) same found.1 in
        (ground (arith, at, h.1), (up, found.2 id ∙ h.1))
    Found-Has s (inr e, s') h found up v =
        let none_there = found.0 up.1 id tx h.1 in
        let own = opened.owner in let its = opened.id_is in absurd (ground arith)

    find-triple :
        Triple IsReady
          (find_transaction x id merchant_id)
          (λ o v. (o ≡ some tx) × IsReady v)
          (λ _. Never)
          Never
          Never
    unfolding find_transaction on_transactions
    find-triple =
        Triple-bind {R = λ t v. (t ≡ tx) × IsReady v}
          (record {
            at = λ v h.
                Found-Has v.transactions _ h (l.first_lem _ v.transactions)
                  (l.first_up _ v.transactions h.0) v;
          })
          λ t. Triple-pure (some t) (λ v h. (ap some h.0, h.1))

    has_reference : is_none tx.gateway_ref ≡ false
    has_reference = rw opened.reference refl

    authorized : not (is_authorized tx.status) ≡ false
    authorized = rw opened.status refl

    pub not_voided : is_voided tx.status ≡ false
    not_voided = rw opened.status refl

    pub get-triple :
        Triple IsReady
          (get_tx_authorized x id merchant_id)
          (λ t v. (t ≡ tx) × IsReady v)
          (λ _. Never)
          Never
          Never
    unfolding get_tx_authorized
    get-triple =
        Triple-bind
          (Triple-catch find-triple (λ e. Triple-raise _ (λ v h. h))
            (λ o. Triple-pure o (λ v h. h)))
          λ found. Triple-assume λ v h.
            Triple-before (λ u k. k.1)
              (Triple-deref_some _ found tx h.0 (
                Triple-bind (Triple-raise_if (is_none tx.gateway_ref) _ (λ e u k. cc has_reference))
                  λ _.
                    Triple-bind
                      (Triple-raise_if (not (is_authorized tx.status)) _ (λ e u k. cc authorized))
                      λ _. Triple-pure tx (λ u k. (refl, k.0.0))))

    abbrev pub Reasoned : GatewayOutcome → World x → Type 0
    Reasoned o v = IsReady v × (fits_text l.storable 500 o.failed_reason ≡ true)

    outcome-Ends :
        {A : Type 0} (outcome : A → GatewayOutcome) (r : Result A) (v : World x)
        → IsBrief l.storable outcome r
        → IsReady v
        → let m = resume r (λ e. pure (failure (error_text e))) (λ a. pure (outcome a)) v in
          Ends Reasoned (λ _. Never) Never Never m.0 m.1
    unfolding pure
    outcome-Ends outcome (ok a) v brief h = (h, brief)
    outcome-Ends outcome (err e) v brief h = (h, brief)
    outcome-Ends outcome (both a e) v brief h = (h, brief)
    outcome-Ends outcome (panic p) v brief h = absurd brief

    asked-triple :
        {A : Type 0} (c : Call) (m : M x.Outside A) (outcome : A → GatewayOutcome)
        → ((o : x.Outside) → IsBrief l.storable outcome (m o).0)
        → Triple IsReady
            (catch (send {x = x} c m) (λ e. pure (failure (error_text e))) (λ a. pure (outcome a)))
            Reasoned
            (λ _. Never)
            Never
            Never
    unfolding send catch
    asked-triple c m outcome brief = record {
      at = λ v h. outcome-Ends outcome (m v.outside).0 _ (brief v.outside) h;
    }

    pub call_gateway_capture-triple :
        ((q : CaptureRequest) (o : x.Outside)
          → IsBrief l.storable capture_outcome (g.capture q o).0)
        → Triple IsReady (call_gateway_capture x g tx) Reasoned (λ _. Never) Never Never
    unfolding call_gateway_capture
    call_gateway_capture-triple brief =
        Triple-deref_some _ tx.gateway_ref opened.ref opened.reference
          (asked-triple _ _ capture_outcome (brief _))

    pub call_gateway_void-triple :
        ((q : VoidRequest) (o : x.Outside) → IsBrief l.storable void_outcome (g.void q o).0)
        → Triple IsReady (call_gateway_void x g tx) Reasoned (λ _. Never) Never Never
    unfolding call_gateway_void
    call_gateway_void-triple brief =
        Triple-deref_some _ tx.gateway_ref opened.ref opened.reference
          (asked-triple _ _ void_outcome (brief _))

    pub capture_time-triple :
        (s : TransactionStatus)
        → Triple IsReady (capture_time x g s) (λ _. IsReady) (λ _. Never) Never Never
    unfolding capture_time take_outside
    capture_time-triple s =
        Triple-if (is_captured s)
          (λ _.
            Triple-bind {R = λ _. IsReady} (record { at = λ v h. h })
              (λ now. Triple-pure _ (λ v h. h)))
          (λ _. Triple-pure none (λ v h. h))

    -- The row with the outcome fits.
    fits_outcome :
        (now : Time) (o : GatewayOutcome) (at : Option Time)
        → fits_text l.storable 500 o.failed_reason ≡ true
        → transaction_columns.fits l.storable
            (transaction_columns.apply now (outcome_changes o at) tx)
          ≡ true
    fits_outcome now o at brief = elim (Option-cases o.failed_reason) [
      | inl without ↦ rw without opened.fits
      | inr (text, with_text) ↦ let all = opened.fits in ground (arith, brief, with_text, all)
    ]

    Updated-Ends :
        (o : GatewayOutcome) (at : Option Time) (s : x.transactions.State)
        (r : Reply (Option Transaction) × x.transactions.State)
        → Has s
        → fits_text l.storable 500 o.failed_reason ≡ true
        → Table.Answers l.up
            (λ _.
              Unfitting transaction_columns l.at l.clock l.storable
                (λ r. r.id == tx.id && is_authorized r.status)
                (outcome_changes o at)
                s)
            s
            r
        → (v : World x)
        → Ends {W = World x}
            (λ _ _. Unit)
            (λ _. Never)
            Never
            Never
            (result_of r.0)
            (record v { transactions = r.1 })
    Updated-Ends o at s (inl row, s') h brief up v = tt
    Updated-Ends o at s (inr e, s') h brief (up, (k, row, here, hit, misfit)) v =
        let row_id : row.id ≡ tx.id = ground arith in
        let place : k ≡ id = sym (l.at_key s k row here) ∙ row_id ∙ opened.id_is in
        let both : some row ≡ some tx = sym here ∙ ap (l.at s) place ∙ h.1 in
        let same : row ≡ tx = cc in
        let fit = fits_outcome (l.clock s) o at brief in
        let two : true ≡ false =
          sym fit
          ∙ subst
              (λ t.
                transaction_columns.fits l.storable
                  (transaction_columns.apply (l.clock s) (outcome_changes o at) t)
                ≡ false)
              same misfit in
        cc

    -- The update, and the answer that is made of the row.
    pub record-triple :
        {A : Type 0} (o : GatewayOutcome) (at : Option Time) (out : Transaction → A)
        → fits_text l.storable 500 o.failed_reason ≡ true
        → Triple IsReady
            (do
              updated ← update_transaction x tx.id is_authorized (outcome_changes o at)
              row ← deref updated
              finish x g o.status (out row))
            (λ _ _. Unit)
            (λ _ _. Unit)
            Never
            Never
    unfolding update_transaction on_transactions finish
    record-triple o at out brief =
        Triple-bind {R = λ o _. (t : Transaction) × (o ≡ some t)}
          (Triple-bind {R = λ _ _. Unit}
            (record {
              at = λ v h.
                  Updated-Ends o at v.transactions _ h brief
                    (l.updates_up _ (outcome_changes o at) v.transactions h.0) v;
            })
            (λ o. Triple-pure _ (λ v h. (_, refl))))
          λ row. Triple-assume λ v h. Triple-deref_some _ row h.0 h.1 (
            Triple-if (is_failed o.status) (λ _. Triple-return_both _ _ (λ u k. tt))
              (λ _. Triple-pure _ (λ u k. tt)))
