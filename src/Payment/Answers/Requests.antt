-- ===== src/Payment/Answers/Requests.antt =====
-- `Capture` and `Void` get an answer.
use card_payment_service.Prelude.{String, ◌≡◌, subst, none}
use card_payment_service.Domain.{Uuid, Transaction, is_voided}
use card_payment_service.Effect.{M, Result, ok, err, both, panic, deferred}
use card_payment_service.Effect.Runs.{>>=_ok}
use card_payment_service.Effect.Triple.{
  Ends, Triple, Triple-raise_if, Triple-bind, Triple-before, Triple-assume,
}
use card_payment_service.External.Table.{TableLaws}
use card_payment_service.Gateway.{Gateway, CaptureRequest, VoidRequest}
use card_payment_service.World.{Externals, World}
use card_payment_service.Repository.{transaction_columns}
use card_payment_service.Payment.Types.{CaptureInput, VoidInput}
use card_payment_service.Payment.Calls.{capture_outcome, void_outcome}
use card_payment_service.Payment.Service.{
  acquire_lock, with_lock, lock_key, capture_locked, void_locked, capture, void,
}
use card_payment_service.Lock.{release}
use card_payment_service.Payment.Guards.{ledger, Never}
use card_payment_service.Payment.Settle.Locked.{acquire_lock-triple}
use card_payment_service.Payment.Settle.Once.{Answers, IsDone, capture-IsDone, void-IsDone}
use card_payment_service.Payment.Answers.{
  IsBrief, IsOpen, Has, IsReady, get-triple, call_gateway_capture-triple, call_gateway_void-triple,
  capture_time-triple, record-triple, not_voided,
}

module _ (x : Externals) (l : TableLaws x.transactions transaction_columns) (g : Gateway x.Outside)
    (id merchant_id : Uuid) (tx : Transaction) (opened : IsOpen x l g id merchant_id tx) where
  abbrev Ready : World x → Type 0
  Ready = IsReady x l g id merchant_id tx opened

  capture_locked-triple :
      ((q : CaptureRequest) (o : x.Outside) → IsBrief l.storable capture_outcome (g.capture q o).0)
      → Triple Ready
          (capture_locked x g (record { transaction_id = id; merchant_id = merchant_id }))
          (λ _ _. Unit)
          (λ _ _. Unit)
          Never
          Never
  unfolding capture_locked
  capture_locked-triple brief = Triple-bind (get-triple x l g id merchant_id tx opened) λ t.
      Triple-assume λ v h. rw h.0 (
        Triple-before (λ u k. k.1)
          (Triple-bind (call_gateway_capture-triple x l g id merchant_id tx opened brief) λ o.
            Triple-assume λ u k.
              Triple-before (λ u k. k.0)
                (Triple-bind (capture_time-triple x l g id merchant_id tx opened o.status)
                  λ time. record-triple x l g id merchant_id tx opened o time _ k.1)))

  void_locked-triple :
      ((q : VoidRequest) (o : x.Outside) → IsBrief l.storable void_outcome (g.void q o).0)
      → Triple Ready
          (void_locked x g (record { transaction_id = id; merchant_id = merchant_id }))
          (λ _ _. Unit)
          (λ _ _. Unit)
          Never
          Never
  unfolding void_locked
  void_locked-triple brief = Triple-bind (get-triple x l g id merchant_id tx opened) λ t.
      Triple-assume λ v h. rw h.0 (
        Triple-before (λ u k. k.1)
          (Triple-bind
            (Triple-raise_if (is_voided tx.status) _
              (λ e u k. cc (not_voided x l g id merchant_id tx opened)))
            λ _.
              Triple-before (λ u k. k.0)
                (Triple-bind (call_gateway_void-triple x l g id merchant_id tx opened brief) λ o.
                  Triple-assume λ u k.
                    Triple-before (λ u k. k.0)
                      (record-triple x l g id merchant_id tx opened o none _ k.1))))

  Ends-Answers :
      {A : Type 0} (r : Result A) (v : World x)
      → Ends (λ _ _. Unit) (λ _ _. Unit) Never Never r v
      → Answers r
  Ends-Answers (ok a) v h = tt
  Ends-Answers (err e) v h = h
  Ends-Answers (both a e) v h = tt
  Ends-Answers (panic p) v h = h

  acquired-IsReady :
      (w v : World x) (r : Result String) (value : String)
      → r ≡ ok value
      → Ends (λ _. Ready) (λ _ _. Unit) (λ _. Unit) (λ _. Unit) r v
      → Ready v
  acquired-IsReady w v r value e h =
      subst (λ q. Ends (λ _. Ready) (λ _ _. Unit) (λ _. Unit) (λ _. Unit) q v) e h

  -- What ends in an answer from a state that is ready does so under the lock.
  with_lock-Answers :
      {A : Type 0} (body : M (World x) A) (w : World x) (value : String)
      → Triple Ready body (λ _ _. Unit) (λ _ _. Unit) Never Never
      → Ready w
      → (acquire_lock x g id w).0 ≡ ok value
      → Answers (with_lock x g id body w).0
  unfolding with_lock deferred
  with_lock-Answers body w value t h e =
      let u = (acquire_lock x g id w).1 in
      let ready = acquired-IsReady w u _ value e (
        (acquire_lock-triple x g (λ v. Has x l g id merchant_id tx opened v.transactions)
            (λ _. Unit) (λ _. Unit) (λ v p. tt) id).at
          w h) in
      rw
        (>>=_ok (acquire_lock x g id) w
          (λ v. deferred (release x (lock_key (x.uuid_text id)) v) body) e)
        (Ends-Answers (body u).0 (body u).1 (t.at u ready))

module _ (x : Externals) (l : TableLaws x.transactions transaction_columns)
    (g : Gateway x.Outside) where
  -- `Capture` of the merchant's authorized transaction, with a reference and texts that fit their
  -- columns, gets an answer on a database that answers, where the lock is had and the gateway does
  -- not panic and its texts of errors fit the column of the reason: a value comes back, with or
  -- without an error, and the transaction is spent.
  pub capture-Answers :
      (input : CaptureInput) (w : World x) (tx : Transaction) (value : String)
      → (opened : IsOpen x l g input.transaction_id input.merchant_id tx)
      → IsReady x l g input.transaction_id input.merchant_id tx opened w
      → (acquire_lock x g input.transaction_id w).0 ≡ ok value
      → ((q : CaptureRequest) (o : x.Outside)
          → IsBrief l.storable capture_outcome (g.capture q o).0)
      → let (r, v) = capture x g input w in Answers r × IsDone x l g input.transaction_id (ledger v)
  unfolding capture
  capture-Answers input w tx value opened ready had brief =
      let answers : Answers (capture x g input w).0 =
        with_lock-Answers x l g input.transaction_id input.merchant_id tx opened
          (capture_locked x g input) w value
          (capture_locked-triple x l g input.transaction_id input.merchant_id tx opened brief) ready
          had in
      (answers, capture-IsDone x l g input w answers)

  -- `Void` of the merchant's authorized transaction, with a reference and texts that fit their
  -- columns, gets an answer on a database that answers, where the lock is had and the gateway does
  -- not panic and its texts of errors fit the column of the reason: a value comes back, with or
  -- without an error, and the transaction is spent.
  pub void-Answers :
      (input : VoidInput) (w : World x) (tx : Transaction) (value : String)
      → (opened : IsOpen x l g input.transaction_id input.merchant_id tx)
      → IsReady x l g input.transaction_id input.merchant_id tx opened w
      → (acquire_lock x g input.transaction_id w).0 ≡ ok value
      → ((q : VoidRequest) (o : x.Outside) → IsBrief l.storable void_outcome (g.void q o).0)
      → let (r, v) = void x g input w in Answers r × IsDone x l g input.transaction_id (ledger v)
  unfolding void
  void-Answers input w tx value opened ready had brief =
      let answers : Answers (void x g input w).0 =
        with_lock-Answers x l g input.transaction_id input.merchant_id tx opened
          (void_locked x g input) w value
          (void_locked-triple x l g input.transaction_id input.merchant_id tx opened brief) ready
          had in
      (answers, void-IsDone x l g input w answers)
