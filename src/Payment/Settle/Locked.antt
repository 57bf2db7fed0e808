-- ===== src/Payment/Settle/Locked.antt =====
-- The lock around an operation leaves the ledger alone, so what holds under it holds after it.
use card_payment_service.Prelude.{ℕ, String, ◌≡◌, refl, sym, subst, inl, inr}
use card_payment_service.Domain.{Uuid}
use card_payment_service.Effect.{
  M, Result, ok, err, both, panic, deferred, effects, resume, raise, pure,
}
use card_payment_service.Effect.Triple.{Ends, Triple, Triple-pure, Triple-raise_if, Triple-bind}
use card_payment_service.External.Table.{Reply}
use card_payment_service.Gateway.{Gateway}
use card_payment_service.World.{Externals, World, on_redis, take_outside, result_of}
use card_payment_service.Lock.{acquire, release}
use card_payment_service.Payment.Service.{acquire_lock, with_lock}
use card_payment_service.Payment.Guards.{Ledger, ledger}

module _ (x : Externals) (g : Gateway x.Outside) where
  module _ (P : Ledger x → Type 0) (E X : World x → Type 0)
      (fails : (v : World x) → P (ledger v) → E v) where
    on_redis-Ends :
        {A : Type 0} (r : Reply A) (v : World x)
        → P (ledger v)
        → Ends (λ (_ : A) v. P (ledger v)) (λ _. E) E X (result_of r) v
    on_redis-Ends (inl a) v p = p
    on_redis-Ends (inr e) v p = fails v p

    on_redis-triple :
        {A : Type 0} (f : x.redis.State → Reply A × x.redis.State)
        → Triple (λ v. P (ledger v)) (on_redis {x = x} f) (λ _ v. P (ledger v)) (λ _. E) E X
    unfolding on_redis
    on_redis-triple f = record { at = λ v p. on_redis-Ends (f v.redis).0 _ p }

    new_uuid-triple :
        Triple
          (λ v. P (ledger v))
          (take_outside {x = x} x.new_uuid)
          (λ _ v. P (ledger v))
          (λ _. E)
          E
          X
    unfolding take_outside
    new_uuid-triple = record { at = λ v p. p }

    pub acquire_lock-triple :
        (id : Uuid)
        → Triple (λ v. P (ledger v)) (acquire_lock x g id) (λ _ v. P (ledger v)) (λ _. E) E X
    unfolding acquire_lock acquire
    acquire_lock-triple id =
        Triple-bind
          (Triple-bind new_uuid-triple
            λ u. Triple-bind (on_redis-triple _) λ res. Triple-pure _ (λ v p. p))
          λ value.
            Triple-bind (Triple-raise_if _ _ (λ _ v p. fails v p))
              λ _. Triple-pure value (λ v p. p.0)

  release_ledger_of :
      (r : Reply ℕ) (v : World x)
      → ledger (resume (result_of r) raise (λ _. pure tt) v).1 ≡ ledger v
  unfolding effects
  release_ledger_of (inl n) v = refl
  release_ledger_of (inr e) v = refl

  pub ledger-release :
      (key value : String) (v : World x) → ledger (release x key value v).1 ≡ ledger v
  unfolding release on_redis effects
  ledger-release key value v = release_ledger_of _ _

  module _ {A : Type 0} (Q B : A → Ledger x → Type 0) (E X : Ledger x → Type 0) where
    Ends-eq :
        (r : Result A) (v u : World x)
        → ledger u ≡ ledger v
        → Ends
            (λ a v. Q a (ledger v))
            (λ a v. B a (ledger v))
            (λ v. E (ledger v))
            (λ v. X (ledger v))
            r
            v
        → Ends
            (λ a v. Q a (ledger v))
            (λ a v. B a (ledger v))
            (λ v. E (ledger v))
            (λ v. X (ledger v))
            r
            u
    Ends-eq (ok a) v u e h = subst (Q a) (sym e) h
    Ends-eq (err f) v u e h = subst E (sym e) h
    Ends-eq (both a f) v u e h = subst (B a) (sym e) h
    Ends-eq (panic p) v u e h = subst X (sym e) h

    pub with_lock-triple :
        (P : Ledger x → Type 0) (id : Uuid) {body : M (World x) A}
        → ((s : Ledger x) → P s → E s)
        → Triple
            (λ v. P (ledger v))
            body
            (λ a v. Q a (ledger v))
            (λ a v. B a (ledger v))
            (λ v. E (ledger v))
            (λ v. X (ledger v))
        → Triple
            (λ v. P (ledger v))
            (with_lock x g id body)
            (λ a v. Q a (ledger v))
            (λ a v. B a (ledger v))
            (λ v. E (ledger v))
            (λ v. X (ledger v))
    unfolding with_lock deferred
    with_lock-triple P id {body} fails t =
        Triple-bind (acquire_lock-triple P _ _ (λ v. fails (ledger v)) id) λ value. record {
          at =
              λ v p. Ends-eq (body v).0 (body v).1 _ (ledger-release _ value (body v).1) (t.at v p);
        }
