-- ===== src/Http/Handlers/Merchants.antt =====
-- The handlers of merchants: what they answer, and what they have then done.
use card_payment_service.Prelude.{String, ◌≡◌, ◌⊎◌, refl, Option, none, some, false, inl, inr}
use card_payment_service.Domain.{Error, Merchant}
use card_payment_service.Effect.{M, pure, deref, ◌>>=◌}
use card_payment_service.Effect.Triple.{Ends, Triple, Triple-pure, Triple-catch, Triple-deref_some}
use card_payment_service.External.Table.{TableLaws}
use card_payment_service.World.{Externals, World}
use card_payment_service.Repository.{merchant_columns, api_key_columns}
use card_payment_service.Merchant.{RegisterInput, RegisterOutput}
use card_payment_service.Merchant.Registration.{Unregistered, RegisterAnswer}
use card_payment_service.Merchant.Registration.Keys.{Shorn}
use card_payment_service.Merchant.Activation.{
  IsActivated, Unchanged, ActivateAnswer, activate-triple,
}
use card_payment_service.Payment.Guards.{Never}
use card_payment_service.Http.{Response, Payload, succeed, bad_request, from_error}
use card_payment_service.Http.Handlers.{handle_activate}

from_error_fails : (e : Error) → (from_error e).success ≡ false
unfolding from_error
from_error_fails e = refl

-- A pointer that is known not to be nil is dereferenced and answered.
Triple-answer :
    {W A : Type 0} {Q B : Response → W → Type 0} {E X : W → Type 0} (H : Option A → W → Type 0)
    (f : A → M W Response) (o : Option A)
    → ((w : W) → H none w → ⊥)
    → ((a : A) → Triple (H (some a)) (f a) Q B E X)
    → Triple (H o) (deref o >>= f) Q B E X
Triple-answer H f none never t = record { at = λ w h. absurd (never w h) }
Triple-answer H f (some a) never t = Triple-deref_some f (some a) a refl (t a)

module _ (x : Externals) (l : TableLaws x.merchants merchant_columns) where
  module _ (lk : TableLaws x.api_keys api_key_columns) (w : World x) where
    -- The response to a registration: 201 with the output, for a merchant and a key that were
    -- added; or no success, and then no merchant was added, or one without a key. A body that was
    -- not bound is answered with 400, and nothing has changed.
    abbrev pub Registered : Option RegisterInput → Response → World x → Type 0
    Registered none r v = (r ≡ bad_request) × (v ≡ w)
    Registered (some input) r v =
        ((out : RegisterOutput) × (r ≡ succeed 201 (Payload.registration out))
          × RegisterAnswer x l lk input w (some out) v)
        ⊎ ((r.success ≡ false) × Unregistered x l lk input w v)

    -- A secret was too short to slice.
    abbrev pub ShornBody : Option RegisterInput → World x → Type 0
    ShornBody none v = ⊥
    ShornBody (some input) v = Shorn x l lk input w v

  module _ (w : World x) where
    -- The response to an activation: 200 with the name, address and status of the merchant that
    -- was made active; or no success, and no merchant changed. A body that was not bound is
    -- answered with 400, and nothing has changed.
    abbrev pub Activated : Option String → Response → World x → Type 0
    Activated none r v = (r ≡ bad_request) × (v ≡ w)
    Activated (some email) r v =
        ((m : Merchant) × (r ≡ succeed 200 (Payload.activation m.name m.email "active"))
          × IsActivated x l email w.merchants m v)
        ⊎ ((r.success ≡ false) × Unchanged x l email w.merchants v)

-- The handler of an activation, whatever the database answers. A body that was not bound is
-- answered with 400 and changes nothing. A bound one is answered with 200 and the name, the address
-- and "active" where a pending merchant of the address was made active, and otherwise with no
-- success, and then no merchant changed. It never panics.
pub activate-Activated :
    (x : Externals) (l : TableLaws x.merchants merchant_columns) (w : World x)
    (body : Option String)
    → let (r, v) = handle_activate x body w in
      Ends (Activated x l w body) (λ _. Never) Never Never r v
unfolding handle_activate pure
activate-Activated x l w none = (refl, refl)
activate-Activated x l w (some email) =
    (Triple-catch (activate-triple x l email w.merchants)
        (λ e. Triple-pure (from_error e) (λ v h. inr (from_error_fails e, h)))
        (λ out.
          Triple-answer (ActivateAnswer x l email w.merchants) _ out (λ v h. h)
            (λ m. Triple-pure _ (λ v h. inl (m, rw h.active, h))))).at
      w refl
