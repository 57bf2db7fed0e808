-- ===== src/Payment/Replay.antt =====
-- internal/service/payment_idempotency.go: what a lookup of an idempotency key answers.
pub mod Saved
use card_payment_service.Prelude.{
  ◌≡◌, refl, subst, Option, none, some, true, inl, inr, ltb, ◌==◌, ◌&&◌, arith,
}
use card_payment_service.Domain.{Uuid, Time, Json, IdempotencyKey}
use card_payment_service.Effect.Triple.{Ends, Triple, Triple-pure, Triple-catch, Triple-bind}
use card_payment_service.External.Table.{TableLaws, Reply, Found}
use card_payment_service.World.{Externals, World, on_idempotency_keys, result_of}
use card_payment_service.Repository.{idempotency_key_columns, find_idempotency_key}
use card_payment_service.Payment.Idempotency.{cached_idempotency, cached_response}
use card_payment_service.Payment.Guards.{Ledger, ledger, Never}

module _ (x : Externals) (li : TableLaws x.idempotency_keys idempotency_key_columns)
    (key merchant_id : Uuid) (s : x.idempotency_keys.State) where
  -- A row of the merchant's under the key, which has not expired.
  pub record IsLive (row : IdempotencyKey) : Type 0 where
    pub stored : li.at s key ≡ some row
    pub owner : row.merchant_id ≡ merchant_id
    pub live : ltb (li.clock s) row.expires_at ≡ true

  -- The response that such a row decodes to.
  abbrev pub IsReplay : {A : Type 0} → (Json → Option A) → A → Type 0
  IsReplay decode a = (row : IdempotencyKey) × IsLive row × (decode row.response ≡ some a)

  abbrev pub IsAnswer : {A : Type 0} → (Json → Option A) → Option A → Type 0
  IsAnswer decode none = Unit
  IsAnswer decode (some a) = IsReplay decode a

  module _ (P : Ledger x → Type 0) where
    abbrev Start : World x → Type 0
    Start v = P (ledger v) × (v.idempotency_keys ≡ s)

    abbrev LiveRow : Option IdempotencyKey → World x → Type 0
    LiveRow none v = ⊥
    LiveRow (some row) v = P (ledger v) × IsLive row

    Found-IsLive :
        (v : World x)
        → Start v
        → (r : Reply IdempotencyKey × x.idempotency_keys.State)
        → Found idempotency_key_columns li.at li.clock
            (λ (now : Time) (r : IdempotencyKey).
              r.key == key && r.merchant_id == merchant_id && ltb now r.expires_at)
            v.idempotency_keys
            r
        → Ends {W = World x}
            (λ row v. P (ledger v) × IsLive row)
            (λ _ v. P (ledger v))
            (λ v. P (ledger v))
            Never
            (result_of r.0)
            (record v { idempotency_keys = r.1 })
    Found-IsLive v p (inl row, s') h =
        let same : row.key ≡ key = ground arith in
        (
          p.0,
          record {
            stored =
                subst (λ t. li.at t key ≡ some row) p.1
                  (subst (λ k. li.at v.idempotency_keys k ≡ some row) same h.1);
            owner = ground arith;
            live = subst (λ t. ltb (li.clock t) row.expires_at ≡ true) p.1 (ground arith);
          },
        )
    Found-IsLive v p (inr e, s') h = p.0

    find-triple :
        Triple Start
          (find_idempotency_key x key merchant_id)
          LiveRow
          (λ _ v. P (ledger v))
          (λ v. P (ledger v))
          Never
    unfolding find_idempotency_key on_idempotency_keys
    find-triple =
        Triple-bind {R = λ row v. P (ledger v) × IsLive row}
          (record { at = λ v p. Found-IsLive v p _ (li.first_lem _ v.idempotency_keys) })
          (λ row. Triple-pure (some row) (λ v h. h))

    replayed :
        {A : Type 0} (decode : Json → Option A) (row : IdempotencyKey) (o : Option A)
        → decode row.response ≡ o
        → IsLive row
        → IsAnswer decode o
    replayed decode row none e live = tt
    replayed decode row (some a) e live = (row, live, e)

    answered :
        {A : Type 0} (decode : Json → Option A) (o : Option IdempotencyKey) (v : World x)
        → LiveRow o v
        → P (ledger v) × IsAnswer decode (cached_response decode o)
    answered decode none v h = absurd h
    answered decode (some row) v h = (h.0, replayed decode row _ refl h.1)

    -- A lookup changes no row and never fails. It answers a response that a live row of the
    -- merchant's under the key decodes to, or nothing.
    pub cached_idempotency-triple :
        {A : Type 0} {B : Option A → World x → Type 0} {E : World x → Type 0}
        (decode : Json → Option A)
        → Triple Start
            (cached_idempotency x decode key merchant_id)
            (λ o v. P (ledger v) × IsAnswer decode o)
            B
            E
            Never
    unfolding cached_idempotency
    cached_idempotency-triple decode =
        Triple-catch find-triple (λ e. Triple-pure none (λ v p. (p, tt)))
          (λ row. Triple-pure _ (answered decode row))
