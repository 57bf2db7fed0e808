-- ===== src/Gateway/Mock/Calm.antt =====
-- The mock gateway never panics on a capture or a void.
use card_payment_service.Effect.{M, Result, ok, err, both, panic, IsCalm}
use card_payment_service.Effect.Triple.{Ends, Triple, Triple-pure, Triple-raise_if, Triple-bind}
use card_payment_service.Gateway.{CaptureRequest, VoidRequest}
use card_payment_service.Gateway.Mock.{MockParts, capture, void}

module _ {O : Type 0} where
  abbrev Calm : {A : Type 0} → M O A → Type 0
  Calm m = Triple (λ _. Unit) m (λ _ _. Unit) (λ _ _. Unit) (λ _. Unit) (λ _. ⊥)

  IsCalm-Ends :
      {A : Type 0} (r : Result A) (o : O)
      → Ends (λ _ _. Unit) (λ _ _. Unit) (λ _. Unit) (λ _. ⊥) r o
      → IsCalm r
  IsCalm-Ends (ok a) o h = tt
  IsCalm-Ends (err e) o h = tt
  IsCalm-Ends (both a e) o h = tt
  IsCalm-Ends (panic p) o h = h

  module _ (m : MockParts O) where
    capture-triple : (q : CaptureRequest) → Calm (capture m q)
    unfolding capture
    capture-triple q = Triple-bind (Triple-raise_if _ _ (λ _ o h. tt)) λ _.
        Triple-bind (Triple-raise_if _ _ (λ _ o h. tt)) λ _.
          Triple-bind (Triple-raise_if _ _ (λ _ o h. tt))
            λ _. Triple-bind (Triple-raise_if _ _ (λ _ o h. tt)) λ _. Triple-pure _ (λ o h. tt)

    void-triple : (q : VoidRequest) → Calm (void m q)
    unfolding void
    void-triple q = Triple-bind (Triple-raise_if _ _ (λ _ o h. tt)) λ _.
        Triple-bind (Triple-raise_if _ _ (λ _ o h. tt)) λ _.
          Triple-bind (Triple-raise_if _ _ (λ _ o h. tt))
            λ _. Triple-bind (Triple-raise_if _ _ (λ _ o h. tt)) λ _. Triple-pure _ (λ o h. tt)

    pub capture-IsCalm : (q : CaptureRequest) (o : O) → IsCalm (capture m q o).0
    capture-IsCalm q o = IsCalm-Ends _ _ ((capture-triple q).at o tt)

    pub void-IsCalm : (q : VoidRequest) (o : O) → IsCalm (void m q o).0
    void-IsCalm q o = IsCalm-Ends _ _ ((void-triple q).at o tt)
