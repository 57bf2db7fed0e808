-- ===== src/Payment/Exclusion.antt =====
-- While a lock is held, `Capture`, `Void` and `Refund` on the same transaction are turned away.
pub mod Interleaved
pub mod Mutex
use card_payment_service.Prelude.{String, ◌≡◌, refl, sym, subst, ◌∙◌, some, none, inl, inr}
use card_payment_service.Domain.{Uuid, Error}
use card_payment_service.Effect.{M, Result, err, effects}
use card_payment_service.External.Table.{Reply}
use card_payment_service.External.Redis.{RedisLaws, Lapses, Set}
use card_payment_service.Gateway.{Gateway}
use card_payment_service.World.{Externals, World, on_redis, take_outside}
use card_payment_service.Lock.{acquire}
use card_payment_service.Payment.Service.{acquire_lock, with_lock, lock_key, lock_ttl}

module _ (x : Externals) (l : RedisLaws x.redis) (g : Gateway x.Outside) where
  -- An error came back, no table, request or background job has changed, and no key was written
  -- or removed, unless its time was over.
  pub record IsTurnedAway {A : Type 0} (w : World x) (r : Result A) (v : World x) : Type 0 where
    pub failed : (e : Error) × (r ≡ err e)
    pub same : v ≡ record w { redis = v.redis; outside = v.outside }
    pub keys : (j : String) → Lapses l.view l.lapses w.redis j (l.view w.redis j) (l.view v.redis j)

  only_expired :
      (key value held : String) (s : x.redis.State) (e : Error) (r : Reply String × x.redis.State)
      → l.view s key ≡ some held
      → r.0 ≡ inr e
      → Set l.view l.lapses key value s r
      → (j : String) → Lapses l.view l.lapses s j (l.view s j) (l.view r.1 j)
  only_expired key value held s e (inl reply, t) h same set j = cc
  only_expired key value held s e (inr f, t) h same set j = elim (set j) [
    | inl a ↦ a
    | inr (at, free, new) ↦
        let both : some held ≡ none = sym h ∙ subst (λ k. l.view s k ≡ none) at free in cc
  ]

  turned_away :
      {A : Type 0} (id : Uuid) (body : M (World x) A) (w : World x) (e : Error) (held : String)
      → let key = lock_key (x.uuid_text id) in
        let set = x.redis.set_args_nx key (x.uuid_text (x.new_uuid w.outside).0) lock_ttl w.redis in
        l.view w.redis key ≡ some held
        → set.0 ≡ inr e
        → Set l.view l.lapses key (x.uuid_text (x.new_uuid w.outside).0) w.redis set
        → IsTurnedAway w (with_lock x g id body w).0 (with_lock x g id body w).1
  unfolding with_lock acquire_lock acquire take_outside on_redis effects
  turned_away id body w e held h same set = rw same (record {
    failed = (e, refl);
    same = refl;
    keys = only_expired _ _ held w.redis e _ h same set;
  })

  -- While the lock of a transaction is held, what runs under it comes back with an error, whatever
  -- it is: no table changes, nothing is sent to the gateway or left in the background, and no key
  -- of Redis changes, unless its time is over.
  pub with_lock_held :
      {A : Type 0} (id : Uuid) (body : M (World x) A) (w : World x) (held : String)
      → l.view w.redis (lock_key (x.uuid_text id)) ≡ some held
      → IsTurnedAway w (with_lock x g id body w).0 (with_lock x g id body w).1
  with_lock_held id body w held h =
      let key = lock_key (x.uuid_text id) in
      let value = x.uuid_text (x.new_uuid w.outside).0 in
      let nil = l.set_held key value held lock_ttl w.redis h in
      turned_away id body w nil.0 held h nil.1 (l.set_lem key value lock_ttl w.redis)
