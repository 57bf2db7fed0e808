-- ===== src/Lock/Keys.antt =====
-- internal/infra/redis/lock.go: what `Acquire` and `Release` do to the keys.
use card_payment_service.Prelude.{
  ℕ, String, ◌≡◌, ◌⊎◌, ◌≢◌, refl, subst, ◌∙◌, Option, none, some, Bool, true, false, not, inl, inr,
  ◌&&◌, if◌then◌else◌, str_eq, eq_iff, arith, Bool-cases,
}
use card_payment_service.Effect.{pure, resume, raise, effects}
use card_payment_service.Effect.Triple.{Ends}
use card_payment_service.External.Table.{Reply}
use card_payment_service.External.Redis.{RedisLaws, Lapses, Set, Ran}
use card_payment_service.World.{Externals, World, on_redis, take_outside, result_of}
use card_payment_service.Lock.{acquire, release, release_script}

-- The key has the value.
abbrev pub has_value : Option String → String → Bool
has_value none value = false
has_value (some held) value = str_eq held value

module _ (x : Externals) (l : RedisLaws x.redis) where
  -- The keys without the one, if it had the value.
  abbrev pub released : String → String → x.redis.State → String → Option String
  released key value s j =
      if str_eq key j && has_value (l.view s key) value then none else l.view s j

  -- the script's branch on a value that is held
  deleted :
      (key j : String) (s : x.redis.State) (b : Bool)
      → l.view (if b then x.redis.del key s else (0, s)).1 j
        ≡ (if str_eq key j && b then none else l.view s j)
  deleted key j s true = l.del_lem key j s ∙ ground arith
  deleted key j s false = ground arith

  script_at :
      (key value j : String) (s : x.redis.State) (o : Option String)
      → x.redis.get key s ≡ o
      → l.view (release_script x key value s).1 j
        ≡ (if str_eq key j && has_value o value then none else l.view s j)
  unfolding release_script
  script_at key value j s none e = rw (e, release_script) (ground arith)
  script_at key value j s (some held) e =
      rw (e, release_script) (deleted key j s (str_eq held value))

  release_script_lem :
      (key value j : String) (s : x.redis.State)
      → l.view (release_script x key value s).1 j ≡ released key value s j
  release_script_lem key value j s = script_at key value j s _ (l.get_lem key s)

  -- How the keys are after a release.
  abbrev pub AfterRelease : String → String → World x → World x → Type 0
  AfterRelease key value w v =
      (j : String)
      → Lapses l.view l.lapses w.redis j (released key value w.redis j) (l.view v.redis j)

  -- The reply was lost: the script has run, or not.
  abbrev pub MaybeReleased : String → String → World x → World x → Type 0
  MaybeReleased key value w v =
      AfterRelease key value w v
      ⊎ ((j : String) → Lapses l.view l.lapses w.redis j (l.view w.redis j) (l.view v.redis j))

  ran :
      (key value : String) (s t : x.redis.State)
      → ((j : String)
          → Lapses l.view l.lapses s j (l.view (release_script x key value s).1 j) (l.view t j))
      → (j : String) → Lapses l.view l.lapses s j (released key value s j) (l.view t j)
  ran key value s t h j =
      subst (λ o. Lapses l.view l.lapses s j o (l.view t j)) (release_script_lem key value j s)
        (h j)

  release-Ends :
      (key value : String) (w : World x) (r : Reply ℕ × x.redis.State)
      → Ran l.view l.lapses (release_script x key value) w.redis r
      → let v : World x = record w { redis = r.1 } in
        Ends
          (λ _. AfterRelease key value w)
          (λ (_ : Unit {0}) _. ⊥)
          (MaybeReleased key value w)
          (λ _. ⊥)
          (resume (result_of r.0) raise (λ _. pure tt) v).0
          (resume (result_of r.0) raise (λ _. pure tt) v).1
  unfolding effects pure raise
  release-Ends key value w (inl n, t) h = ran key value w.redis t h
  release-Ends key value w (inr e, t) (inl h) = inl (ran key value w.redis t h)
  release-Ends key value w (inr e, t) (inr h) = inr h

  -- `Release` removes the key if the value is still the caller's, and never a key that another
  -- holds or another key; where Redis does not answer, it may not have run. Every key is as
  -- this leaves it, unless its time is over meanwhile. It never panics.
  pub release_lem :
      (key value : String) (w : World x)
      → let (r, v) = release x key value w in
        Ends
          (λ _. AfterRelease key value w)
          (λ (_ : Unit {0}) _. ⊥)
          (MaybeReleased key value w)
          (λ _. ⊥)
          r
          v
  unfolding release on_redis effects
  release_lem key value w =
      release-Ends key value w _ (l.run_lem (release_script x key value) w.redis)

  -- How the keys are after an acquisition that answers a value: the key was free and has it now.
  abbrev pub IsHeld : String → World x → String → World x → Type 0
  IsHeld key w value v =
      (value ≡ x.uuid_text (x.new_uuid w.outside).0)
      × (l.view w.redis key ≡ none)
      × (l.view v.redis key ≡ some value)
      × ((j : String)
          → j ≢ key
          → Lapses l.view l.lapses w.redis j (l.view w.redis j) (l.view v.redis j))

  -- The answer "": no key has changed, unless its time was over.
  abbrev pub IsNotHeld : World x → World x → Type 0
  IsNotHeld w v =
      (j : String) → Lapses l.view l.lapses w.redis j (l.view w.redis j) (l.view v.redis j)

  -- No answer: at most the value was written to the key, which was free.
  abbrev pub MaybeHeld : String → World x → World x → Type 0
  MaybeHeld key w v =
      (j : String)
      → Lapses l.view l.lapses w.redis j (l.view w.redis j) (l.view v.redis j)
        ⊎ ((j ≡ key)
            × (l.view w.redis j ≡ none)
            × (l.view v.redis j ≡ some (x.uuid_text (x.new_uuid w.outside).0)))

  acquire-Ends :
      (key : String) (w : World x) (r : Reply String × x.redis.State)
      → let value = x.uuid_text (x.new_uuid w.outside).0 in
        let v : World x = record w { redis = r.1; outside = (x.new_uuid w.outside).1 } in
        Set l.view l.lapses key value w.redis r
        → Ends
            (λ a v. IsHeld key w a v ⊎ ((a ≡ "") × IsNotHeld w v))
            (λ _ _. ⊥)
            (MaybeHeld key w)
            (λ _. ⊥)
            (resume
              (result_of r.0)
              raise
              (λ res. pure (if not (str_eq res "OK") then "" else value))
              v).0
            (resume
              (result_of r.0)
              raise
              (λ res. pure (if not (str_eq res "OK") then "" else value))
              v).1
  unfolding effects pure raise
  acquire-Ends key w (inr e, t) h = h
  acquire-Ends key w (inl reply, t) h = elim (Bool-cases (str_eq reply "OK")) [
    | inl e ↦
        let same = (eq_iff reply "OK").0 e in
        rw e (inl (refl, (h.0 same).0, (h.0 same).1, λ j ne. h.1 j (λ _. ne)))
    | inr e ↦ rw e (inr (refl, λ j. h.1 j (λ same. absurd (cc ((eq_iff reply "OK").1 same)))))
  ]

  -- `Acquire` answers a fresh value only where the key was free, and then the key has that value;
  -- where it answers the empty string no key was written; where Redis does not answer, at most the
  -- value was written to the key, if that was free. No other key changes, unless its time is over
  -- meanwhile, and it never panics.
  pub acquire_lem :
      (key : String) (ttl : ℕ) (w : World x)
      → let (r, v) = acquire x key ttl w in
        Ends
          (λ a v. IsHeld key w a v ⊎ ((a ≡ "") × IsNotHeld w v))
          (λ _ _. ⊥)
          (MaybeHeld key w)
          (λ _. ⊥)
          r
          v
  unfolding acquire take_outside on_redis effects
  acquire_lem key ttl w = acquire-Ends key w _ (l.set_lem key _ ttl w.redis)
